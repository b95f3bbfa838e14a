-- ===== src/Em8/Plugin/Load.antt =====
-- em8/src/plugin_em8.cpp: `emfe_load_binary` and `emfe_load_srec`. The file system gives the bytes
-- or the lines of the file, or `none` where it cannot be read.
pub mod Srec
pub mod Record
use emfe_plugins.Base.{
  ℕ, zero, suc, ◌+◌, ◌-◌, ◌*◌, ◌<◌, ◌≤◌, ◌≡◌, refl, ap, Bool, true, false, ◌&&◌, ◌||◌, not, List,
  [], ◌∷◌, Option, none, some, bit_or, ltb, leb, ◌==◌, if◌then◌else◌, u8, u16, word, length, arith,
  get_or,
}
use emfe_plugins.Em8.Memory
use emfe_plugins.Em8.Memory.{Memory}
use emfe_plugins.Em8.Cpu.State.{Cpu}
use emfe_plugins.Em8.Plugin.Number.{Text, peek, rest}
use emfe_plugins.Em8.Plugin.Instance.{Instance, Result}
use emfe_plugins.Em8.Plugin.Run.{is_running}

-- the loop that stores the bytes of the image, from the address `addr` on
unfoldable pub poke_image : ℕ → List ℕ → Memory → Memory
poke_image addr [] m = m
poke_image addr (b ∷ data_bytes) m =
    let more = poke_image (addr + 1) data_bytes (Memory.poke addr b m) in
    if ltb addr 0x10000 then more else m

-- the reset vector of the image where it is not zero, its first address where it is
start_pc : ℕ → Memory → ℕ
start_pc addr m =
    let reset_vec = u16 (bit_or (Memory.peek 0xfffc m) (Memory.peek 0xfffd m * 256)) in
    if reset_vec == 0 then addr else reset_vec

load_image : ℕ → List ℕ → Instance → Instance
unfolding start_pc
load_image addr image i =
    let m = poke_image addr image i.cpu.memory in
    record i {
      cpu = record i.cpu { memory = m; pc = start_pc addr m; sp = 0xff };
      program_start_address = addr;
      program_end_address = u16 (addr + length image);
    }

unfoldable pub load_binary : Option (List ℕ) → ℕ → Instance → Result × Instance
unfolding load_image
load_binary none load_address i = if is_running i then (Result.err_state, i) else (Result.err_io, i)
load_binary (some image) load_address i =
    if is_running i
    then (Result.err_state, i)
    else (Result.ok, load_image (u16 load_address) image i)

pub get_or-head :
    (b : ℕ) (image : List ℕ) (addr a : ℕ) → a ≡ addr → get_or (b ∷ image) (a - addr) 0 ≡ b
get_or-head b image addr a e = let gap : a - addr ≡ 0 = omega arith in rw (gap) refl

pub get_or-tail :
    (b : ℕ) (image : List ℕ) (addr a : ℕ)
    → addr < a
    → get_or (b ∷ image) (a - addr) 0 ≡ get_or image (a - (addr + 1)) 0
get_or-tail b image addr a lt =
    let gap : a - addr ≡ suc (a - (addr + 1)) = omega arith in rw (gap) refl

-- Loading an image stores it byte for byte from its address up to the end of the memory, and leaves
-- every other byte.
pub poke_image-bytes :
    (addr : ℕ) (image : List ℕ) (m : Memory) (a : ℕ)
    → a < 0x10000
    → (poke_image addr image m).bytes a
      ≡ (if leb addr a && ltb a (addr + length image) then get_or image (a - addr) 0 else m.bytes a)
unfolding poke_image Memory.poke
poke_image-bytes addr [] m a h = ground arith
poke_image-bytes addr (b ∷ image) m a h = ground (
  arith,
  poke_image-bytes (addr + 1) image (Memory.poke addr b m) a h,
  get_or-head b image addr a,
  get_or-tail b image addr a,
)

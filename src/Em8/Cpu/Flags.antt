-- ===== src/Em8/Cpu/Flags.antt =====
-- The flags of the EM8 in its byte `FL`: each is read back as it was set, and none disturbs another.
use emfe_plugins.Base.{ℕ, ◌≡◌, ◌<◌, ◌^◌, Bool, not, bit_and, ◌==◌, leb, if◌then◌else◌, not8, arith}
use emfe_plugins.Base.Bits.{
  bit, bit-lt, bit-bit_and, bit-bit_or, bit_and_power, bit_or-lt, bit_and-le,
}
use emfe_plugins.Em8.Cpu.State.{Flag, mask, Cpu, get_flag, set_flag, set_nz}

-- the place of a flag in the byte
abbrev pub place : Flag → ℕ
place Flag.c = 0
place Flag.z = 1
place Flag.i = 2
place Flag.b = 4
place Flag.v = 6
place Flag.n = 7

abbrev pub is_same : Flag → Flag → Bool
is_same f g = place f == place g

pub get_flag-bit : (f : Flag) (s : Cpu) → get_flag f s ≡ (bit (place f) s.fl == 1)
unfolding get_flag
get_flag-bit Flag.c s = ground (arith, bit_and_power 0 s.fl, bit-lt 0 s.fl)
get_flag-bit Flag.z s = ground (arith, bit_and_power 1 s.fl, bit-lt 1 s.fl)
get_flag-bit Flag.i s = ground (arith, bit_and_power 2 s.fl, bit-lt 2 s.fl)
get_flag-bit Flag.b s = ground (arith, bit_and_power 4 s.fl, bit-lt 4 s.fl)
get_flag-bit Flag.v s = ground (arith, bit_and_power 6 s.fl, bit-lt 6 s.fl)
get_flag-bit Flag.n s = ground (arith, bit_and_power 7 s.fl, bit-lt 7 s.fl)

-- the bit of a mask, and of its complement
bit-mask : (f g : Flag) → bit (place g) (mask f) ≡ (if is_same f g then 1 else 0)
unfolding bit
bit-mask f g = ground arith

bit-not8 : (f g : Flag) → bit (place g) (not8 (mask f)) ≡ (if is_same f g then 0 else 1)
unfolding bit
bit-not8 f g = ground arith

-- A flag that was just set has the value given, and every other flag has the value it had.
pub get_flag-set_flag :
    (f g : Flag) (on : Bool) (s : Cpu)
    → get_flag g (set_flag f on s) ≡ (if is_same f g then on else get_flag g s)
unfolding set_flag
get_flag-set_flag f g on s = ground (
  arith,
  get_flag-bit g (set_flag f on s),
  get_flag-bit g s,
  bit-bit_or (place g) s.fl (mask f),
  bit-bit_and (place g) s.fl (not8 (mask f)),
  bit-mask f g,
  bit-not8 f g,
  bit-lt (place g) s.fl,
)

mask-lt : (f : Flag) → mask f < 2 ^ 8
mask-lt f = ground arith

-- A flag change keeps `FL` a byte.
pub set_flag-lt : (f : Flag) (on : Bool) (s : Cpu) → s.fl < 256 → (set_flag f on s).fl < 256
unfolding set_flag
set_flag-lt f on s h =
    ground (arith, bit_or-lt 8 s.fl (mask f) h (mask-lt f), bit_and-le s.fl s.fl (not8 (mask f)))

pub bit_seven : (val : ℕ) → val < 256 → not (bit_and val 0x80 == 0) ≡ leb 128 val
unfolding bit
bit_seven val h = ground (arith, bit_and_power 7 val)

-- After `SetNZ` the Z flag tells whether the value is 0, the N flag shows its bit 7, and the other
-- four flags are as before.
pub set_nz-flags :
    (f : Flag) (val : ℕ) (s : Cpu)
    → val < 256
    → get_flag f (set_nz val s) ≡ (
        if is_same Flag.z f
        then val == 0
        else if is_same Flag.n f
        then leb 128 val
        else get_flag f s)
unfolding set_nz
set_nz-flags f val s h = ground (
  arith,
  get_flag-set_flag Flag.z f (val == 0) s,
  get_flag-set_flag Flag.n f (not (bit_and val 0x80 == 0)) (set_flag Flag.z (val == 0) s),
  bit_seven val h,
)

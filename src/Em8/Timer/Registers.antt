-- ===== src/Em8/Timer/Registers.antt =====
-- The registers of the EM8 timer as the guest sees them.
use emfe_plugins.Base.{
  ℕ, zero, suc, ◌-◌, not8, true, ◌+◌, ◌*◌, ◌/◌, ◌%◌, ◌<◌, ◌≡◌, bit_and, bit_or, arith,
}
use emfe_plugins.Base.Masks.{bit_and_mask, bit_and_shifted, bit_or_fields, bit_or_fields_right}
use emfe_plugins.Base.Bits.{bit_and-le}
use emfe_plugins.Em8.Timer.{Timer, read, write, tick, tick_loop}

-- Every field fits its C type.
pub record IsValid (t : Timer) : Type 0 where
  pub reload_in : t.reload < 65536
  pub counter_in : t.counter < 65536
  pub cr_in : t.cr < 256

pub low_half : (r v : ℕ) → r < 65536 → v < 256 → bit_or (bit_and r 0xff00) v ≡ r / 256 * 256 + v
low_half r v h g =
    ground (arith, bit_and_shifted 8 r 255, bit_and_mask 8 (r / 256), bit_or_fields 8 (r / 256) v)

pub high_half : (r v : ℕ) → v < 256 → bit_or (bit_and r 0x00ff) (v * 256) ≡ v * 256 + r % 256
high_half r v h = ground (arith, bit_and_mask 8 r, bit_or_fields_right 8 v (r % 256))

-- Whatever the guest writes, the registers stay in range.
pub write-IsValid :
    (offset val : ℕ) {t : Timer} → val < 256 → IsValid t → IsValid (write offset val t)
unfolding write
write-IsValid offset val {t} h v = ground (arith, low_half t.reload val, high_half t.reload val)

-- A reload value written in two halves, in either order, is read back byte by byte; the counter
-- shows it once the timer is started.
pub reload_roundtrip :
    (lo hi c : ℕ) {t : Timer}
    → lo < 256
    → hi < 256
    → IsValid t
    → bit_and c 0x01 ≡ 1
    → let u = write 1 hi (write 0 lo t) in
      (u ≡ write 0 lo (write 1 hi t))
      × (read 0 u ≡ lo)
      × (read 1 u ≡ hi)
      × (read 2 (write 4 c u) ≡ lo)
      × (read 3 (write 4 c u) ≡ hi)
unfolding write read
reload_roundtrip lo hi c {t} h g v e = ground (
  arith,
  low_half t.reload lo,
  high_half t.reload hi,
  low_half (hi * 256 + t.reload % 256) lo,
  high_half (t.reload / 256 * 256 + lo) hi,
  bit_and_mask 8 (hi * 256 + lo),
)

tick_loop-IsValid : (n : ℕ) (t : Timer) → IsValid t → IsValid (tick_loop n t)
unfolding tick_loop
tick_loop-IsValid zero t v = v
tick_loop-IsValid (suc n) t v = ground (
  arith,
  tick_loop-IsValid n (record t { overflow = true; counter = t.reload })
      (record { reload_in = v.reload_in; counter_in = v.reload_in; cr_in = v.cr_in }),
  tick_loop-IsValid n (record t { counter = t.counter - 1 })
      (record {
        reload_in = v.reload_in;
        counter_in = omega (arith, v.counter_in);
        cr_in = v.cr_in;
      }),
  v,
  bit_and-le t.cr t.cr (not8 1) (omega arith),
)

-- The counting keeps the registers in range.
pub tick-IsValid : (cycles : ℕ) (t : Timer) → IsValid t → IsValid (tick cycles t)
unfolding tick
tick-IsValid cycles t v = ground (arith, v, tick_loop-IsValid cycles t v)

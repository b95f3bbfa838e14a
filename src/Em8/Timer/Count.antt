-- ===== src/Em8/Timer/Count.antt =====
-- What the EM8 timer counts: the ticks to an overflow, and the ticks between two.
use Prim.Native.Nat.add
use emfe_plugins.Base.{
  ℕ, zero, suc, ◌+◌, ◌-◌, ◌≤◌, ◌<◌, ◌≡◌, ◌↔◌, refl, true, false, bit_and, not8, ltb, ◌||◌, arith,
}
use emfe_plugins.Base.Bits.{bit, bit-lt, bit-bit_and, bit_and_power}
use emfe_plugins.Base.Masks.{bit_and_mask, bit_and_shifted}
use emfe_plugins.Em8.Timer.{Timer, tick, tick_loop, has_pending_irq}

stopped_off : (c : ℕ) → bit_and (bit_and c (not8 0x01)) 0x01 ≡ 0
stopped_off c = ground (arith, bit_and_mask 1 (bit_and c 254), bit_and_shifted 1 c 127)

-- A run of rounds is split at any point; a timer that stopped on the way stays stopped.
tick_loop-add :
    (a b : ℕ) (t : Timer) → bit_and t.cr 0x01 ≡ 1 → tick_loop (a + b) t ≡ tick b (tick_loop a t)
unfolding tick tick_loop
tick_loop-add zero b t h = rw (add.zero, h)
tick_loop-add (suc a) b t h = rw (add.suc) (
    ground (
      arith,
      stopped_off t.cr,
      tick_loop-add a b (record t { counter = t.counter - 1 }),
      tick_loop-add a b (record t { overflow = true; counter = t.reload }),
    ))

-- Ticking is additive: the timer cannot tell one call with `a + b` cycles from two calls.
pub tick-add : (a b : ℕ) (t : Timer) → tick (a + b) t ≡ tick b (tick a t)
unfolding tick
tick-add a b t = ground (arith, bit_and_mask 1 t.cr, tick_loop-add a b t)

tick_loop-down :
    (n : ℕ) (t : Timer) → n ≤ t.counter → tick_loop n t ≡ record t { counter = t.counter - n }
unfolding tick_loop
tick_loop-down zero t h = ground arith
tick_loop-down (suc n) t h = ground (arith, tick_loop-down n (record t { counter = t.counter - 1 }))

tick_loop-one_shot :
    (n : ℕ) (t : Timer)
    → bit_and t.cr 0x02 ≡ 0
    → t.counter < n
    → tick_loop n t ≡ record t { overflow = true; counter = 0; cr = bit_and t.cr (not8 0x01) }
unfolding tick_loop
tick_loop-one_shot zero t h g = absurd (omega arith)
tick_loop-one_shot (suc n) t h g =
    ground (arith, tick_loop-one_shot n (record t { counter = t.counter - 1 }))

-- Up to its counter's value, an enabled timer counts down and raises nothing.
pub tick-down :
    (n : ℕ) (t : Timer)
    → bit_and t.cr 0x01 ≡ 1
    → n ≤ t.counter
    → tick n t ≡ record t { counter = t.counter - n }
unfolding tick
tick-down n t on h = rw on (tick_loop-down n t h)

-- Without auto-reload, an enabled timer overflows once, at tick `counter + 1`; it is then off with
-- its counter at 0, however many ticks are left in the call.
pub tick_one_shot :
    (n : ℕ) (t : Timer)
    → bit_and t.cr 0x01 ≡ 1
    → bit_and t.cr 0x02 ≡ 0
    → t.counter < n
    → tick n t ≡ record t { overflow = true; counter = 0; cr = bit_and t.cr (not8 0x01) }
unfolding tick
tick_one_shot n t on once h = rw on (tick_loop-one_shot n t once h)

irq_bit_kept : (c : ℕ) → bit_and (bit_and c (not8 0x01)) 0x04 ≡ bit_and c 0x04
unfolding bit
irq_bit_kept c =
    omega
      (arith, bit_and_power 2 (bit_and c 254), bit_and_power 2 c, bit-bit_and 2 c 254, bit-lt 2 c)

tick_loop-irq_bit : (n : ℕ) (t : Timer) → bit_and (tick_loop n t).cr 0x04 ≡ bit_and t.cr 0x04
unfolding tick_loop
tick_loop-irq_bit zero t = refl
tick_loop-irq_bit (suc n) t = ground (
  arith,
  irq_bit_kept t.cr,
  tick_loop-irq_bit n (record t { counter = t.counter - 1 }),
  tick_loop-irq_bit n (record t { overflow = true; counter = t.reload }),
)

tick_loop-overflow :
    (n : ℕ) (t : Timer) → (tick_loop n t).overflow ≡ (t.overflow || ltb t.counter n)
unfolding tick_loop
tick_loop-overflow zero t = ground arith
tick_loop-overflow (suc n) t = ground (
  arith,
  tick_loop-overflow n (record t { counter = t.counter - 1 }),
  tick_loop-overflow n (record t { overflow = true; counter = t.reload }),
)

-- An enabled timer with its interrupt on asks for an interrupt after `n` ticks exactly when they
-- are more than its counter's value, with and without auto-reload.
pub tick-has_pending_irq :
    (n : ℕ) (t : Timer)
    → bit_and t.cr 0x01 ≡ 1
    → bit_and t.cr 0x04 ≡ 4
    → t.overflow ≡ false
    → (has_pending_irq (tick n t) ≡ true) ↔ (t.counter < n)
unfolding tick has_pending_irq
tick-has_pending_irq n t on irq clear =
    ground (arith, tick_loop-irq_bit n t, tick_loop-overflow n t)

-- ===== src/Em8/Timer.antt =====
-- em8/src/Em8Timer.h and Em8Timer.cpp: a down counter with reload. A method that changes the
-- object returns it anew.
pub mod Count
pub mod Registers
use emfe_plugins.Base.{
  ℕ, zero, suc, ◌+◌, ◌-◌, ◌*◌, ◌/◌, Bool, true, false, ◌&&◌, not, bit_and, bit_or, ◌==◌,
  if◌then◌else◌, u16, not8,
}

pub record Timer : Type 0 where
  pub reload : ℕ
  pub counter : ℕ
  pub cr : ℕ
  pub overflow : Bool

abbrev pub init : Timer
init = record { reload = 0; counter = 0; cr = 0; overflow = false }

-- The loop of `Tick` with `n` rounds left; the return in it ends the rounds.
unfoldable pub tick_loop : ℕ → Timer → Timer
tick_loop zero t = t
tick_loop (suc n) t =
    let reloaded = tick_loop n (record t { overflow = true; counter = t.reload }) in
    let stopped = record t { overflow = true; cr = bit_and t.cr (not8 0x01) } in
    let counted = tick_loop n (record t { counter = t.counter - 1 }) in
    if t.counter == 0 then (if not (bit_and t.cr 0x02 == 0) then reloaded else stopped) else counted

unfoldable pub tick : ℕ → Timer → Timer
tick cycles t = if bit_and t.cr 0x01 == 0 then t else tick_loop cycles t

unfoldable pub read : ℕ → Timer → ℕ
read offset t =
    if offset == 0
    then bit_and t.reload 0xff
    else if offset == 1
    then t.reload / 256
    else if offset == 2
    then bit_and t.counter 0xff
    else if offset == 3
    then t.counter / 256
    else if offset == 4
    then t.cr
    else if offset == 5
    then (if t.overflow then 0x01 else 0x00)
    else 0

unfoldable pub write : ℕ → ℕ → Timer → Timer
write offset val t =
    if offset == 0
    then record t { reload = bit_or (bit_and t.reload 0xff00) val }
    else if offset == 1
    then record t { reload = bit_or (bit_and t.reload 0x00ff) (val * 256) }
    else if offset == 4
    then (let u = record t { cr = val } in
        if bit_and val 0x01 == 0 then u else record u { counter = u.reload })
    else if offset == 6
    then record t { overflow = false }
    else t

unfoldable pub has_pending_irq : Timer → Bool
has_pending_irq t = t.overflow && not (bit_and t.cr 0x04 == 0)

unfoldable pub reset : Timer → Timer
reset t = record t { reload = 0; counter = 0; cr = 0; overflow = false }

-- ===== src/Em8/Uart/Queue.antt =====
-- What the console port promises: a bounded queue of received bytes, a sticky overrun flag and a
-- control byte, with no array and no index.
use emfe_plugins.Base.{
  ℕ, ◌+◌, Bool, true, false, ◌&&◌, ◌||◌, not, List, [], ◌∷◌, ◌++◌, bit_and, ltb, ◌==◌,
  if◌then◌else◌, length,
}

pub record Port : Type 0 where
  pub queue : List ℕ
  pub overrun : Bool
  pub control : ℕ
  pub connected : Bool
  pub sent : List ℕ

-- what the guest and the host can do to a port
pub data Op : Type 0 where
  receive : ℕ → Op
  read : ℕ → Op
  write : ℕ → ℕ → Op
  poll_irq : Op
  reset : Op

-- what they see of it
pub data Reply : Type 0 where
  silent : Reply
  byte : ℕ → Reply
  irq : Bool → Reply

unfoldable pub pop : List ℕ → ℕ × List ℕ
pop [] = (0, [])
pop (x ∷ q) = (x, q)

abbrev flag : Bool → ℕ → ℕ
flag b n = if b then n else 0

abbrev pub is_nonempty : List ℕ → Bool
is_nonempty [] = false
is_nonempty (x ∷ q) = true

unfoldable pub step : ℕ → Op → Port → Reply × Port
unfolding pop
step cap (receive ch) p =
    if ltb (length p.queue) cap
    then (silent, record p { queue = p.queue ++ (ch ∷ []) })
    else (silent, record p { overrun = true })
step cap (read offset) p =
    if offset == 0
    then (let (ch, q) = pop p.queue in (byte ch, record p { queue = q }))
    else if offset == 1
    then (byte (flag (is_nonempty p.queue) 1 + 2 + flag p.overrun 4), p)
    else if offset == 2
    then (byte p.control, p)
    else (byte 0, p)
step cap (write offset val) p =
    if offset == 0
    then (silent, record p { sent = if p.connected then val ∷ p.sent else p.sent })
    else if offset == 1
    then (silent, record p { overrun = false })
    else if offset == 2
    then (silent, record p { control = val })
    else (silent, p)
step cap poll_irq p = (
  irq ((not (bit_and p.control 1 == 0) && is_nonempty p.queue) || not (bit_and p.control 2 == 0)),
  p,
)
step cap reset p = (silent, record p { queue = []; overrun = false; control = 0 })

-- what is seen of the calls, and the port behind them
unfoldable pub run : ℕ → List Op → Port → List Reply × Port
run cap [] p = ([], p)
run cap (o ∷ os) p = let (r, p1) = step cap o p in let (rs, p2) = run cap os p1 in (r ∷ rs, p2)

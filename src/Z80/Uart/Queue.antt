-- ===== src/Z80/Uart/Queue.antt =====
-- What the Z80's console promises: a bounded queue of received bytes with a sticky overrun flag.
use emfe_plugins.Base.{
  ℕ, ◌+◌, Bool, true, false, List, [], ◌∷◌, ◌++◌, ltb, ◌==◌, if◌then◌else◌, length,
}

pub record Port : Type 0 where
  pub queue : List ℕ
  pub overrun : Bool
  pub connected : Bool
  pub sent : List ℕ

-- what the guest and the host can do
pub data Op : Type 0 where
  receive : ℕ → Op
  input : ℕ → Op
  output : ℕ → ℕ → Op
  reset : Op

unfoldable pub head_or_zero : List ℕ → ℕ
head_or_zero [] = 0
head_or_zero (x ∷ q) = x

unfoldable pub rest : List ℕ → List ℕ
rest [] = []
rest (x ∷ q) = q

abbrev pub has_data : List ℕ → ℕ
has_data [] = 0
has_data (x ∷ q) = 2

-- The value seen is that of an input; the other calls show 0.
unfoldable pub step : ℕ → Op → Port → ℕ × Port
unfolding head_or_zero rest
step cap (receive ch) p =
    if ltb (length p.queue) cap
    then (0, record p { queue = p.queue ++ (ch ∷ []) })
    else (0, record p { overrun = true })
step cap (input port) p =
    if port == 0xFE
    then (head_or_zero p.queue, record p { queue = rest p.queue })
    else if port == 0xFF
    then (1 + has_data p.queue + (if p.overrun then 4 else 0), p)
    else (0xFF, p)
step cap (output port val) p =
    if port == 0xFE
    then (0, record p { sent = if p.connected then val ∷ p.sent else p.sent })
    else (0, p)
step cap reset p = (0, record p { queue = []; overrun = false })

-- what is seen of the calls, and the port behind them
unfoldable pub session : ℕ → List Op → Port → List ℕ × Port
session cap [] p = ([], p)
session cap (o ∷ os) p =
    let (r, p1) = step cap o p in let (rs, p2) = session cap os p1 in (r ∷ rs, p2)

-- ===== src/Z80/Uart/Refine.antt =====
-- A valid Z80 UART behaves as the bounded queue of the bytes in its FIFO.
use emfe_plugins.Base.{
  ℕ, zero, suc, ◌+◌, ◌%◌, ◌≤◌, ◌<◌, ◌≡◌, ◌∙◌, refl, ap, List, [], ◌∷◌, ltb, arith, if◌then◌else◌,
}
use emfe_plugins.Fifo.{window, length-window, window-update, window_of_pos}
use emfe_plugins.Z80.Uart
use emfe_plugins.Z80.Uart.{Uart, fifo_size}
use emfe_plugins.Z80.Uart.Queue
use emfe_plugins.Z80.Uart.Queue.{Port, Op}

-- The indices stay in the array, and the head is `rx_count` bytes past the tail.
pub record IsValid (u : Uart) : Type 0 where
  pub tail_in : u.rx_tail < fifo_size
  pub count_in : u.rx_count ≤ fifo_size
  pub head_at : u.rx_head ≡ (u.rx_tail + u.rx_count) % fifo_size

abbrev pub port : Uart → Port
port u = record {
  queue = window fifo_size u.rx_fifo u.rx_tail u.rx_count;
  overrun = u.rx_overrun;
  connected = u.tx_callback;
  sent = u.transmitted;
}

-- a call of one of the UART's methods
unfoldable pub step : Op → Uart → ℕ × Uart
step (Op.receive ch) u = (0, Uart.receive_char ch u)
step (Op.input port) u = Uart.read port u
step (Op.output port val) u = (0, Uart.write port val u)
step Op.reset u = (0, Uart.reset u)

unfoldable pub session : List Op → Uart → List ℕ × Uart
session [] u = ([], u)
session (o ∷ os) u = let (r, u1) = step o u in let (rs, u2) = session os u1 in (r ∷ rs, u2)

pub step-IsValid : (o : Op) {u : Uart} → IsValid u → IsValid (step o u).1
unfolding step Uart.receive_char Uart.read Uart.write Uart.reset
step-IsValid (Op.receive ch) v = ground arith
step-IsValid (Op.input port) v = ground arith
step-IsValid (Op.output port val) v = ground arith
step-IsValid Op.reset v = ground arith

has_data-window :
    (buf : ℕ → ℕ) (t n : ℕ) → Queue.has_data (window fifo_size buf t n) ≡ (if ltb 0 n then 2 else 0)
has_data-window buf t zero = refl
has_data-window buf t (suc n) = ground arith

window_of_zero : (buf : ℕ → ℕ) (t n : ℕ) → n ≡ 0 → window fifo_size buf t n ≡ []
window_of_zero buf t zero h = refl
window_of_zero buf t (suc n) h = absurd (omega arith)

step-refines :
    (o : Op) {u : Uart}
    → IsValid u
    → (let (r, u') = step o u in (r, port u')) ≡ Queue.step fifo_size o (port u)
unfolding step Queue.step
step-refines (Op.receive ch) {u} v =
    unfold Uart.receive_char in
    ground (
      arith,
      length-window fifo_size u.rx_fifo u.rx_tail u.rx_count,
      window-update fifo_size u.rx_fifo ch u.rx_count u.rx_tail u.rx_head,
    )
step-refines (Op.input p) {u} v =
    unfold Uart.read in
    ground (
      arith,
      window_of_pos fifo_size u.rx_fifo u.rx_tail u.rx_count,
      window_of_zero u.rx_fifo u.rx_tail u.rx_count,
      has_data-window u.rx_fifo u.rx_tail u.rx_count,
    )
step-refines (Op.output p val) v = unfold Uart.write in ground arith
step-refines Op.reset v = unfold Uart.reset in ground arith

-- No sequence of received bytes, port inputs and outputs and resets tells a valid UART from the
-- bounded queue of 8 bytes that it holds: the bytes come out in the order of arrival, a byte that
-- does not fit is dropped and sets the overrun flag, which nothing but a reset clears, and the status
-- port agrees. Behind the calls the UART holds the queue's bytes, and the logs of transmitted bytes
-- are the same.
pub session-refines :
    (os : List Op) {u : Uart}
    → IsValid u
    → (let (rs, u') = session os u in (rs, port u')) ≡ Queue.session fifo_size os (port u)
unfolding session Queue.session
session-refines [] v = refl
session-refines (o ∷ os) {u} v =
    ap (λ q. ((step o u).0 ∷ q.0, q.1)) (session-refines os (step-IsValid o v))
    ∙ ap (λ q. (let (rs, p) = Queue.session fifo_size os q.1 in (q.0 ∷ rs, p))) (step-refines o v)

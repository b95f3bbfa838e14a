-- ===== src/Em8/Uart/Refine.antt =====
-- A valid EM8 UART behaves as the bounded queue of the bytes in its FIFO.
use emfe_plugins.Base.{
  ℕ, zero, suc, ◌+◌, ◌%◌, ◌≤◌, ◌<◌, ◌≡◌, ◌∙◌, refl, ap, List, [], ◌∷◌, ltb, arith,
}
use emfe_plugins.Fifo.{window, length-window, window-update, window_of_pos}
use emfe_plugins.Em8.Uart
use emfe_plugins.Em8.Uart.{Uart, fifo_size}
use emfe_plugins.Em8.Uart.Queue
use emfe_plugins.Em8.Uart.Queue.{Port, Op, Reply}

-- The indices stay in the array, and the head is `rx_count` bytes past the tail.
pub record IsValid (u : Uart) : Type 0 where
  pub tail_in : u.rx_tail < fifo_size
  pub count_in : u.rx_count ≤ fifo_size
  pub head_at : u.rx_head ≡ (u.rx_tail + u.rx_count) % fifo_size

abbrev pub port : Uart → Port
port u = record {
  queue = window fifo_size u.rx_fifo u.rx_tail u.rx_count;
  overrun = u.rx_overrun;
  control = u.cr;
  connected = u.tx_callback;
  sent = u.transmitted;
}

-- a call of one of the UART's methods
unfoldable pub step : Op → Uart → Reply × Uart
step (Op.receive ch) u = (Reply.silent, Uart.receive_char ch u)
step (Op.read offset) u = let (v, u') = Uart.read offset u in (Reply.byte v, u')
step (Op.write offset val) u = (Reply.silent, Uart.write offset val u)
step Op.poll_irq u = (Reply.irq (Uart.has_pending_irq u), u)
step Op.reset u = (Reply.silent, Uart.reset u)

unfoldable pub run : List Op → Uart → List Reply × Uart
run [] u = ([], u)
run (o ∷ os) u = let (r, u1) = step o u in let (rs, u2) = run os u1 in (r ∷ rs, u2)

pub step-IsValid : (o : Op) {u : Uart} → IsValid u → IsValid (step o u).1
unfolding step Uart.receive_char Uart.read Uart.write Uart.reset
step-IsValid (Op.receive ch) v = ground arith
step-IsValid (Op.read offset) v = ground arith
step-IsValid (Op.write offset val) v = ground arith
step-IsValid Op.poll_irq v = v
step-IsValid Op.reset v = ground arith

is_nonempty-window :
    (buf : ℕ → ℕ) (t n : ℕ) → Queue.is_nonempty (window fifo_size buf t n) ≡ ltb 0 n
is_nonempty-window buf t zero = refl
is_nonempty-window buf t (suc n) = ground arith

receive-refines :
    (ch : ℕ) {u : Uart}
    → IsValid u
    → (let (r, u') = step (Op.receive ch) u in (r, port u'))
      ≡ Queue.step fifo_size (Op.receive ch) (port u)
unfolding step Queue.step Uart.receive_char
receive-refines ch {u} v = ground (
  arith,
  length-window fifo_size u.rx_fifo u.rx_tail u.rx_count,
  window-update fifo_size u.rx_fifo ch u.rx_count u.rx_tail u.rx_head,
)

read-refines :
    (offset : ℕ) {u : Uart}
    → IsValid u
    → (let (r, u') = step (Op.read offset) u in (r, port u'))
      ≡ Queue.step fifo_size (Op.read offset) (port u)
unfolding step Queue.step Uart.read
read-refines offset {u} v = ground (
  arith,
  window_of_pos fifo_size u.rx_fifo u.rx_tail u.rx_count,
  is_nonempty-window u.rx_fifo u.rx_tail u.rx_count,
)

step-refines :
    (o : Op) {u : Uart}
    → IsValid u
    → (let (r, u') = step o u in (r, port u')) ≡ Queue.step fifo_size o (port u)
step-refines (Op.receive ch) v = receive-refines ch v
step-refines (Op.read offset) v = read-refines offset v
step-refines (Op.write offset val) v = unfold step Queue.step Uart.write in ground arith
step-refines Op.poll_irq {u} v =
    unfold step Queue.step Uart.has_pending_irq in
    ground (arith, is_nonempty-window u.rx_fifo u.rx_tail u.rx_count)
step-refines Op.reset v = unfold step Queue.step Uart.reset in ground arith

-- No sequence of received bytes, register reads and writes, interrupt polls and resets tells a
-- valid UART from the bounded queue of 8 bytes that it holds: the same bytes come out in the same
-- order, a byte that does not fit is dropped and sets the overrun flag in bit 2 of the status until
-- that is written or reset, and the status register and the interrupt line agree. Behind the calls
-- the UART holds the queue's bytes, and the logs of transmitted bytes are the same.
pub run-refines :
    (os : List Op) {u : Uart}
    → IsValid u
    → (let (rs, u') = run os u in (rs, port u')) ≡ Queue.run fifo_size os (port u)
unfolding run Queue.run
run-refines [] v = refl
run-refines (o ∷ os) {u} v =
    ap (λ q. ((step o u).0 ∷ q.0, q.1)) (run-refines os (step-IsValid o v))
    ∙ ap (λ q. (let (rs, p) = Queue.run fifo_size os q.1 in (q.0 ∷ rs, p))) (step-refines o v)

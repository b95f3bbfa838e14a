-- ===== src/Fifo.antt =====
-- Circular byte buffers: the bytes that a window of a fixed array holds, going round at its
-- size. The receive FIFOs of em8/src/Em8Uart.cpp, z8000/src/Z8000Uart.cpp and z80/src/Z80Uart.cpp
-- are read through it.
use native.Mathlib.Nat.{mod-add-mod, mod-eq_of_lt, mod-eq-sub-mod}
use native.Mathlib.Decide.{dec_lt}
use emfe_plugins.Base.{ℕ, zero, suc, ◌+◌, ◌-◌, ◌%◌, ◌<◌, ◌≡◌, ◌≢◌, refl, ap, ap₂, ◌∙◌}
use emfe_plugins.Base.{List, [], ◌∷◌, ◌++◌, arith, length, update}

module _ (size : ℕ) where
  -- the `n` bytes from index `t` on
  abbrev pub window : (ℕ → ℕ) → ℕ → ℕ → List ℕ
  window buf t zero = []
  window buf t (suc n) = buf t ∷ window buf ((t + 1) % size) n

  pub length-window : (buf : ℕ → ℕ) (t n : ℕ) → length (window buf t n) ≡ n
  length-window buf t zero = refl
  length-window buf t (suc n) = ap suc (length-window buf ((t + 1) % size) n)

  -- Fewer than `size` steps round do not come back to the start.
  add-mod-ne : (t k : ℕ) → t < size → suc k < size → (t + suc k) % size ≢ t
  add-mod-ne t k h g = elim (dec_lt (t + suc k) size) [
    | yes p ↦ omega (arith, mod-eq_of_lt p)
    | no p ↦ omega (
      arith,
      mod-eq-sub-mod {n = t + suc k} {m = size} (omega arith),
      mod-eq_of_lt {n = t + suc k - size} {m = size} (omega arith),
    )
  ]

  mod-shift : (t n : ℕ) → (t + suc n) % size ≡ ((t + 1) % size + n) % size
  mod-shift t n = rw mod-add-mod (ap (λ k. k % size) (omega arith))

  -- A store just past the window adds that byte at its end.
  pub window-update :
      (buf : ℕ → ℕ) (x n t i : ℕ)
      → t < size
      → n < size
      → i ≡ (t + n) % size
      → window (update buf i x) t (suc n) ≡ window buf t n ++ (x ∷ [])
  window-update buf x zero t i h g e = ground (arith, mod-eq_of_lt {n = t + 0} {m = size})
  window-update buf x (suc n) t i h g e =
      ap₂ ◌∷◌ first
        (window-update buf x n ((t + 1) % size) i (omega arith) (omega arith) (e ∙ mod-shift t n))
    where
      first : update buf i x t ≡ buf t
      first = ground (arith, add-mod-ne t n)

  -- The code tests the count, `window` matches on it.
  pub window_of_pos :
      (buf : ℕ → ℕ) (t n : ℕ) → n ≢ 0 → window buf t n ≡ buf t ∷ window buf ((t + 1) % size) (n - 1)
  window_of_pos buf t zero h = absurd (h refl)
  window_of_pos buf t (suc n) h = ap (λ k. window buf t (suc k)) (omega arith)

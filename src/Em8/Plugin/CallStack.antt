-- ===== src/Em8/Plugin/CallStack.antt =====
-- em8/src/plugin_em8.cpp: `emfe_get_call_stack`, as the list of the entries' return addresses.
use emfe_plugins.Base.{
  ℕ, zero, suc, ◌+◌, ◌≤◌, ◌<◌, ◌≡◌, refl, ap, ◌∙◌, sym, update, ap₂, List, [], ◌∷◌, min, arith,
}
use emfe_plugins.Em8.Cpu.State.{Cpu}
use emfe_plugins.Em8.Cpu.Control.{shadow_push}

-- the `n` entries from the index `n - 1` down
entries : ℕ → (ℕ → ℕ) → List ℕ
entries zero stack = []
entries (suc n) stack = stack n ∷ entries n stack

unfoldable pub get_call_stack : ℕ → Cpu → List ℕ
unfolding entries
get_call_stack max_count s = entries (min s.shadow_stack_top max_count) s.shadow_stack

entries-suc : (n : ℕ) (s : ℕ → ℕ) → entries (suc n) s ≡ s n ∷ entries n s
unfolding entries
entries-suc n s = refl

entries-above :
    (n k : ℕ) (s : ℕ → ℕ) (t : ℕ → ℕ)
    → n ≤ k
    → ((j : ℕ) → j < k → t j ≡ s j)
    → entries n t ≡ entries n s
unfolding entries
entries-above zero k s t h same = refl
entries-above (suc n) k s t h same =
    ap₂ (λ x xs. x ∷ xs) (same n (omega arith)) (entries-above n k s t (omega arith) same)

get_call_stack-full :
    (max_count : ℕ) (s : Cpu)
    → s.shadow_stack_top ≤ max_count
    → get_call_stack max_count s ≡ entries s.shadow_stack_top s.shadow_stack
unfolding get_call_stack
get_call_stack-full max_count s h = ap (λ n. entries n s.shadow_stack) (omega arith)

shadow_push-room :
    (ret_pc : ℕ) (s : Cpu)
    → s.shadow_stack_top < 256
    → (shadow_push ret_pc s).1 ≡ record s {
      shadow_stack = update s.shadow_stack s.shadow_stack_top ret_pc;
      shadow_stack_top = s.shadow_stack_top + 1;
    }
unfolding shadow_push
shadow_push-room ret_pc s h = ground arith

-- With room for one more frame in the shadow stack and in the caller's array, a call adds its return
-- address in front of the list and changes nothing behind it.
pub get_call_stack-shadow_push :
    (max_count ret_pc : ℕ) (s : Cpu)
    → s.shadow_stack_top < 256
    → s.shadow_stack_top < max_count
    → get_call_stack max_count (shadow_push ret_pc s).1 ≡ ret_pc ∷ get_call_stack max_count s
get_call_stack-shadow_push max_count ret_pc s h room =
    let pushed : ℕ → ℕ = update s.shadow_stack s.shadow_stack_top ret_pc in
    let top : pushed s.shadow_stack_top ≡ ret_pc = ground arith in
    let tail : entries s.shadow_stack_top pushed ≡ get_call_stack max_count s =
      entries-above s.shadow_stack_top s.shadow_stack_top s.shadow_stack pushed (omega arith)
        (λ j lt. ground arith)
      ∙ sym (get_call_stack-full max_count s (omega arith)) in
    ap (get_call_stack max_count) (shadow_push-room ret_pc s h)
    ∙ get_call_stack-full max_count
        (record s { shadow_stack = pushed; shadow_stack_top = s.shadow_stack_top + 1 })
        (omega arith)
    ∙ ap (λ n. entries n pushed) (omega arith)
    ∙ entries-suc s.shadow_stack_top pushed
    ∙ ap₂ (λ x xs. x ∷ xs) top tail

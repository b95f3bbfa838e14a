-- ===== src/Em8/Plugin/Config.antt =====
-- em8/src/plugin_em8.cpp: the calls on settings. A key or a value is the list of its characters.
use emfe_plugins.Base.{
  ℕ, ◌≡◌, refl, true, List, [], ◌∷◌, Option, none, some, if◌then◌else◌, arith, Bool-cases, inl, inr,
}
use emfe_plugins.Base.Text.{same_text}
use emfe_plugins.Em8.Plugin.Instance.{Settings}

value_or_empty : Option (List ℕ) → List ℕ
value_or_empty none = []
value_or_empty (some v) = v

unfoldable pub get_setting : List ℕ → Settings → List ℕ
unfolding value_or_empty
get_setting key s = value_or_empty (s.staged key)

unfoldable pub set_setting : List ℕ → List ℕ → Settings → Settings
set_setting key value s = record s {
  staged = λ k. if same_text k key then some value else s.staged k;
}

unfoldable pub apply_one : Settings → List ℕ → Option (List ℕ) → Option (List ℕ)
apply_one s k none = s.applied k
apply_one s k (some value) = if s.requires_reset k then s.applied k else some value

-- The loop goes over the keys of the staged map, and treats each for itself.
unfoldable pub apply_settings : Settings → Settings
unfolding apply_one
apply_settings s = record s { committed = s.staged; applied = λ k. apply_one s k (s.staged k) }

unfoldable pub get_applied_setting : List ℕ → Settings → List ℕ
unfolding value_or_empty
get_applied_setting key s = value_or_empty (s.applied key)

-- what `emfe_reset` does to the settings
unfoldable pub flush : Settings → Settings
flush s = record s { applied = s.committed }

same_text_refl : (t : List ℕ) → same_text t t ≡ true
same_text_refl [] = refl
same_text_refl (c ∷ t) = ground (arith, same_text_refl t)

-- A value that is set and applied shows at once as the staged one. It is in effect at once too, or if
-- its key wants a reset, the old one stays in effect until the reset, which puts the new one in.
pub apply_settings-set_setting :
    (key value : List ℕ) (s : Settings)
    → let s' = apply_settings (set_setting key value s) in
      (get_setting key s' ≡ value)
      × (get_applied_setting key s'
          ≡ (if s.requires_reset key then get_applied_setting key s else value))
      × (get_applied_setting key (flush s') ≡ value)
unfolding value_or_empty get_setting set_setting apply_settings get_applied_setting flush
apply_settings-set_setting key value s =
    rw (same_text_refl key) (elim (Bool-cases (s.requires_reset key)) [
      | inl h ↦ rw (h) (refl, refl, refl)
      | inr h ↦ rw (h) (refl, refl, refl)
    ])

-- ===== src/Base/Maps.antt =====
-- Maps from numbers as association lists without repeated keys, and sets of numbers as lists. The
-- order of a list stands for the unspecified order of an `unordered_map` or `unordered_set`.
use Prim.Native.Nat.{ℕ}
use mathlib.Core.Path.{◌≡◌}
use mathlib.Core.Bool.{not, ◌&&◌, ◌||◌}
use mathlib.Core.List.{List, [], ◌∷◌}
use mathlib.Core.Option.{Option, none, some}
use native.Mathlib.Omega.{arith}
use emfe_plugins.Base.Tests.{◌==◌, if◌then◌else◌}
use emfe_plugins.Base.Arrays.{contains}

module _ {ℓ} {V : Type ℓ} where
  unfoldable pub find : ℕ → List (ℕ × V) → Option V
  find k [] = none
  find k ((j, v) ∷ rest) = if k == j then some v else find k rest

  unfoldable pub erase : ℕ → List (ℕ × V) → List (ℕ × V)
  erase k [] = []
  erase k ((j, v) ∷ rest) = let others = erase k rest in if k == j then others else (j, v) ∷ others

  -- `m[k] = v`
  unfoldable pub put : ℕ → V → List (ℕ × V) → List (ℕ × V)
  put k v m = (k, v) ∷ erase k m

  pub find-erase :
      (j k : ℕ) (m : List (ℕ × V)) → find j (erase k m) ≡ (if j == k then none else find j m)
  unfolding find erase
  find-erase j k [] = ground arith
  find-erase j k ((i, v) ∷ rest) = ground (arith, find-erase j k rest)

  pub find-put :
      (j k : ℕ) (v : V) (m : List (ℕ × V))
      → find j (put k v m) ≡ (if j == k then some v else find j m)
  unfolding find put
  find-put j k v m = ground (arith, find-erase j k m)

unfoldable pub insert : ℕ → List ℕ → List ℕ
insert a s = if contains a s then s else a ∷ s

unfoldable pub remove : ℕ → List ℕ → List ℕ
remove a [] = []
remove a (b ∷ s) = let rest = remove a s in if a == b then rest else b ∷ rest

pub contains-insert : (a b : ℕ) (s : List ℕ) → contains a (insert b s) ≡ (a == b || contains a s)
unfolding insert
contains-insert a b s = ground arith

pub contains-remove :
    (a b : ℕ) (s : List ℕ) → contains a (remove b s) ≡ (not (a == b) && contains a s)
unfolding remove
contains-remove a b [] = ground arith
contains-remove a b (c ∷ s) = ground (arith, contains-remove a b s)

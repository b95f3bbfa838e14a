-- ===== src/Em8/Plugin/Breakpoints/Armed.antt =====
-- The two records that the EM8 plugin keeps of its breakpoints agree, and each call does to them
-- what it does to one map.
use emfe_plugins.Base.{
  ℕ, ◌≡◌, refl, inl, inr, Bool, true, false, List, Option, none, some, ◌==◌, if◌then◌else◌, u16,
  contains, arith, ==_iff, Bool-cases, ap,
}
use emfe_plugins.Base.Maps.{find, put, find-put, find-erase, contains-insert, contains-remove}
use emfe_plugins.Em8.Plugin.Instance.{Instance, Breakpoint, Result}
use emfe_plugins.Em8.Plugin.Breakpoints.{
  enable_found, condition_found, add_breakpoint, remove_breakpoint, enable_breakpoint,
  set_breakpoint_condition, clear_breakpoints,
}

unfoldable pub is_enabled : Option Breakpoint → Bool
is_enabled none = false
is_enabled (some bp) = bp.enabled

-- the set that the loop looks into holds the addresses of the enabled entries
pub record IsValid (i : Instance) : Type 0 where
  pub agree : (a : ℕ) → contains a i.enabled_breakpoints ≡ is_enabled (find a i.breakpoints)

-- the calls that change a breakpoint
pub data Op : Type 0 where
  add : ℕ → Op
  remove : ℕ → Op
  enable : ℕ → Bool → Op
  set_condition : ℕ → Option (List ℕ) → Op
  clear : Op

pub perform : Op → Instance → Result × Instance
perform (Op.add a) i = add_breakpoint a i
perform (Op.remove a) i = remove_breakpoint a i
perform (Op.enable a on) i = enable_breakpoint a on i
perform (Op.set_condition a c) i = set_breakpoint_condition a c i
perform Op.clear i = clear_breakpoints i

-- A board of breakpoints as one partial map, and the calls on it.
abbrev pub Board : Type 0
Board = ℕ → Option Breakpoint

pub with_found : (Breakpoint → Breakpoint) → Option Breakpoint → Option Breakpoint
with_found f none = none
with_found f (some bp) = some (f bp)

pub expected : Op → Board → Board
unfolding with_found
expected (Op.add a) m =
    λ j. if j == u16 a then some (record { address = a; enabled = true; condition = none }) else m j
expected (Op.remove a) m = λ j. if j == u16 a then none else m j
expected (Op.enable a on) m =
    λ j. if j == u16 a then with_found (λ bp. record bp { enabled = on }) (m j) else m j
expected (Op.set_condition a c) m =
    λ j. if j == u16 a then with_found (λ bp. record bp { condition = c }) (m j) else m j
expected Op.clear m = λ j. none

pub expected_result : Op → Board → Result
expected_result (Op.enable a on) m = elim (m (u16 a)) [
  | none ↦ Result.err_notfound
  | some bp ↦ Result.ok
]
expected_result (Op.set_condition a c) m = elim (m (u16 a)) [
  | none ↦ Result.err_notfound
  | some bp ↦ Result.ok
]
expected_result _ m = Result.ok

-- A store at a key whose entry was found, and at one that has none.
find-put_found :
    (j a : ℕ) (f : Breakpoint → Breakpoint) (bp : Breakpoint) (m : List (ℕ × Breakpoint))
    → find a m ≡ some bp
    → find j (put a (f bp) m) ≡ (if j == a then with_found f (find j m) else find j m)
find-put_found j a f bp m e = elim (Bool-cases (j == a)) [
  | inl h ↦
      rw (find-put j a (f bp) m, h, ap (λ k. find k m) ((==_iff j a).0 h), e)
        (unfold with_found in refl)
  | inr h ↦ rw (find-put j a (f bp) m, h) refl
]

find-missing :
    (j a : ℕ) (f : Breakpoint → Breakpoint) (m : List (ℕ × Breakpoint))
    → find a m ≡ none
    → find j m ≡ (if j == a then with_found f (find j m) else find j m)
find-missing j a f m e = elim (Bool-cases (j == a)) [
  | inl h ↦ rw (h, ap (λ k. find k m) ((==_iff j a).0 h), e) (unfold with_found in refl)
  | inr h ↦ rw (h) refl
]

is_enabled-with_found :
    (c : Option (List ℕ)) (o : Option Breakpoint)
    → is_enabled (with_found (λ bp. record bp { condition = c }) o) ≡ is_enabled o
unfolding with_found is_enabled
is_enabled-with_found c none = refl
is_enabled-with_found c (some bp) = refl

enable_found-IsValid :
    (a : ℕ) (on : Bool) (i : Instance) (o : Option Breakpoint)
    → find a i.breakpoints ≡ o
    → IsValid i
    → IsValid (enable_found a on i o).1
unfolding enable_found is_enabled
enable_found-IsValid a on i none e v = v
enable_found-IsValid a on i (some bp) e v = record {
  agree = λ j. ground (
    arith,
    find-put j a (record bp { enabled = on }) i.breakpoints,
    contains-insert j a i.enabled_breakpoints,
    contains-remove j a i.enabled_breakpoints,
    v.agree j,
  );
}

condition_found-IsValid :
    (a : ℕ) (c : Option (List ℕ)) (i : Instance) (o : Option Breakpoint)
    → find a i.breakpoints ≡ o
    → IsValid i
    → IsValid (condition_found a c i o).1
unfolding condition_found is_enabled
condition_found-IsValid a c i none e v = v
condition_found-IsValid a c i (some bp) e v = record {
  agree = λ j.
      rw (find-put_found j a (λ b. record b { condition = c }) bp i.breakpoints e, v.agree j)
        (ground (arith, is_enabled-with_found c (find j i.breakpoints)));
}

-- Each call that changes a breakpoint keeps the two records in agreement: an address is in the set
-- that the loop looks into exactly if the map has an enabled entry for it.
pub perform-IsValid : (o : Op) (i : Instance) → IsValid i → IsValid (perform o i).1
unfolding perform
perform-IsValid (Op.add a) i v = record {
  agree = λ j.
      unfold add_breakpoint is_enabled in
      ground (
        arith,
        find-put j (u16 a) (record { address = a; enabled = true; condition = none }) i.breakpoints,
        contains-insert j (u16 a) i.enabled_breakpoints,
        v.agree j,
      );
}
perform-IsValid (Op.remove a) i v = record {
  agree = λ j.
      unfold remove_breakpoint is_enabled in
      ground (
        arith,
        find-erase j (u16 a) i.breakpoints,
        contains-remove j (u16 a) i.enabled_breakpoints,
        v.agree j,
      );
}
perform-IsValid (Op.enable a on) i v =
    unfold enable_breakpoint in
    enable_found-IsValid (u16 a) on i (find (u16 a) i.breakpoints) refl v
perform-IsValid (Op.set_condition a c) i v =
    unfold set_breakpoint_condition in
    condition_found-IsValid (u16 a) c i (find (u16 a) i.breakpoints) refl v
perform-IsValid Op.clear i v = record {
  agree = λ j. unfold clear_breakpoints find is_enabled in refl;
}

enable_found-expected :
    (a : ℕ) (on : Bool) (i : Instance) (o : Option Breakpoint)
    → find a i.breakpoints ≡ o
    → ((enable_found a on i o).0 ≡ (elim o [ none ↦ Result.err_notfound | some bp ↦ Result.ok ]))
      × ((j : ℕ)
          → find j (enable_found a on i o).1.breakpoints ≡ (
              if j == a
              then with_found (λ bp. record bp { enabled = on }) (find j i.breakpoints)
              else find j i.breakpoints))
unfolding enable_found
enable_found-expected a on i none e =
    (refl, λ j. find-missing j a (λ bp. record bp { enabled = on }) i.breakpoints e)
enable_found-expected a on i (some bp) e =
    (refl, λ j. find-put_found j a (λ b. record b { enabled = on }) bp i.breakpoints e)

condition_found-expected :
    (a : ℕ) (c : Option (List ℕ)) (i : Instance) (o : Option Breakpoint)
    → find a i.breakpoints ≡ o
    → ((condition_found a c i o).0 ≡ (elim o [ none ↦ Result.err_notfound | some bp ↦ Result.ok ]))
      × ((j : ℕ)
          → find j (condition_found a c i o).1.breakpoints ≡ (
              if j == a
              then with_found (λ bp. record bp { condition = c }) (find j i.breakpoints)
              else find j i.breakpoints))
unfolding condition_found
condition_found-expected a c i none e =
    (refl, λ j. find-missing j a (λ bp. record bp { condition = c }) i.breakpoints e)
condition_found-expected a c i (some bp) e =
    (refl, λ j. find-put_found j a (λ b. record b { condition = c }) bp i.breakpoints e)

-- Each call that changes a breakpoint does to the map, address by address, what the partial map
-- promises, and replies as it promises: to add makes the entry anew and to remove takes it away, both
-- with success whether it was there or not; to enable an entry or to set its condition reports a
-- missing one and then changes nothing; to clear leaves no entry.
pub perform-expected :
    (o : Op) (i : Instance)
    → ((perform o i).0 ≡ expected_result o (λ j. find j i.breakpoints))
      × ((j : ℕ) → find j (perform o i).1.breakpoints ≡ expected o (λ j. find j i.breakpoints) j)
unfolding perform expected expected_result
perform-expected (Op.add a) i =
    unfold add_breakpoint in
    (
      refl,
      λ j.
          find-put j (u16 a) (record { address = a; enabled = true; condition = none })
            i.breakpoints,
    )
perform-expected (Op.remove a) i =
    unfold remove_breakpoint in (refl, λ j. find-erase j (u16 a) i.breakpoints)
perform-expected (Op.enable a on) i =
    unfold enable_breakpoint in enable_found-expected (u16 a) on i (find (u16 a) i.breakpoints) refl
perform-expected (Op.set_condition a c) i =
    unfold set_breakpoint_condition in
    condition_found-expected (u16 a) c i (find (u16 a) i.breakpoints) refl
perform-expected Op.clear i = unfold clear_breakpoints find in (refl, λ j. refl)

-- ===== src/Em8/Plugin/Breakpoints.antt =====
-- em8/src/plugin_em8.cpp: the calls on breakpoints. An address is a `uint64_t`.
pub mod Armed
use emfe_plugins.Base.{
  ℕ, zero, suc, ◌≡◌, ◌⊎◌, ◌≢◌, refl, ap, sym, ◌∙◌, inl, inr, Bool, true, false, ◌||◌, ◌&&◌, not,
  List, [], ◌∷◌, Option, none, some, ◌==◌, if◌then◌else◌, u16, contains, arith, map,
}
use emfe_plugins.Base.Maps.{
  find, put, erase, insert, remove, find-put, find-erase, contains-insert, contains-remove,
}
use emfe_plugins.Em8.Plugin.Instance.{Instance, Breakpoint, Result}

unfoldable pub add_breakpoint : ℕ → Instance → Result × Instance
add_breakpoint address i =
    let addr = u16 address in
    (
      Result.ok,
      record i {
        breakpoints =
            put addr (record { address = address; enabled = true; condition = none }) i.breakpoints;
        enabled_breakpoints = insert addr i.enabled_breakpoints;
      },
    )

unfoldable pub remove_breakpoint : ℕ → Instance → Result × Instance
remove_breakpoint address i =
    let addr = u16 address in
    (
      Result.ok,
      record i {
        breakpoints = erase addr i.breakpoints;
        enabled_breakpoints = remove addr i.enabled_breakpoints;
      },
    )

-- the two calls on an entry, for what `breakpoints.find(addr)` gives
unfoldable pub enable_found : ℕ → Bool → Instance → Option Breakpoint → Result × Instance
enable_found addr on i none = (Result.err_notfound, i)
enable_found addr on i (some bp) = (
  Result.ok,
  record i {
    breakpoints = put addr (record bp { enabled = on }) i.breakpoints;
    enabled_breakpoints =
        if on then insert addr i.enabled_breakpoints else remove addr i.enabled_breakpoints;
  },
)

unfoldable pub enable_breakpoint : ℕ → Bool → Instance → Result × Instance
unfolding enable_found
enable_breakpoint address on i = enable_found (u16 address) on i (find (u16 address) i.breakpoints)

unfoldable pub condition_found :
    ℕ → Option (List ℕ) → Instance → Option Breakpoint → Result × Instance
condition_found addr condition i none = (Result.err_notfound, i)
condition_found addr condition i (some bp) = (
  Result.ok,
  record i { breakpoints = put addr (record bp { condition = condition }) i.breakpoints },
)

unfoldable pub set_breakpoint_condition : ℕ → Option (List ℕ) → Instance → Result × Instance
unfolding condition_found
set_breakpoint_condition address condition i =
    condition_found (u16 address) condition i (find (u16 address) i.breakpoints)

unfoldable pub clear_breakpoints : Instance → Result × Instance
clear_breakpoints i = (Result.ok, record i { breakpoints = []; enabled_breakpoints = [] })

take_values : ℕ → List (ℕ × Breakpoint) → List Breakpoint
take_values zero m = []
take_values (suc n) [] = []
take_values (suc n) ((k, bp) ∷ m) = bp ∷ take_values n m

-- what the call writes to `out_breakpoints`
unfoldable pub get_breakpoints : ℕ → Instance → List Breakpoint
unfolding take_values
get_breakpoints max_count i = take_values max_count i.breakpoints

-- ===== src/Em8/Plugin/Watchpoints.antt =====
-- em8/src/plugin_em8.cpp: the calls on watchpoints. The mutex makes each call one step.
use emfe_plugins.Base.{ℕ, Bool, true, List, [], Option, none, some, u16}
use emfe_plugins.Base.Maps.{find, put, erase}
use emfe_plugins.Em8.Plugin.Instance.{Instance, Watchpoint, WatchpointType, Result}

unfoldable pub add_watchpoint : ℕ → ℕ → WatchpointType → Instance → Result × Instance
add_watchpoint address size type_of i =
    let addr = u16 address in
    (
      Result.ok,
      record i {
        watchpoints =
            put addr
              (record {
                address = addr;
                size = size;
                type_of = type_of;
                enabled = true;
                condition = [];
              })
              i.watchpoints;
      },
    )

unfoldable pub remove_watchpoint : ℕ → Instance → Result × Instance
remove_watchpoint address i =
    (Result.ok, record i { watchpoints = erase (u16 address) i.watchpoints })

-- the calls that change an entry
with_entry : ℕ → (Watchpoint → Watchpoint) → Instance → Result × Instance
with_entry address f i = elim (find (u16 address) i.watchpoints) [
  | none ↦ (Result.err_notfound, i)
  | some wp ↦ (Result.ok, record i { watchpoints = put (u16 address) (f wp) i.watchpoints })
]

unfoldable pub enable_watchpoint : ℕ → Bool → Instance → Result × Instance
unfolding with_entry
enable_watchpoint address on i = with_entry address (λ wp. record wp { enabled = on }) i

unfoldable pub set_watchpoint_condition : ℕ → Option (List ℕ) → Instance → Result × Instance
unfolding with_entry
set_watchpoint_condition address none i = with_entry address (λ wp. record wp { condition = [] }) i
set_watchpoint_condition address (some text) i =
    with_entry address (λ wp. record wp { condition = text }) i

unfoldable pub clear_watchpoints : Instance → Result × Instance
clear_watchpoints i = (Result.ok, record i { watchpoints = [] })

-- ===== src/Em8/Cpu/Statements.antt =====
-- em8/src/Em8Cpu.cpp: the register statements that many cases of `ExecuteOne` share.
use emfe_plugins.Base.{ℕ}
use emfe_plugins.Em8.Cpu.State.{M, ◌>>◌, gets, set_a, set_x, set_y, nz}

-- `A = val; SetNZ(A);` and so for X and Y
unfoldable pub load_a : ℕ → M (Unit {0})
load_a val = do set_a val; nz val

unfoldable pub load_x : ℕ → M (Unit {0})
load_x val = do set_x val; nz val

unfoldable pub load_y : ℕ → M (Unit {0})
load_y val = do set_y val; nz val

unfoldable pub get_a : M ℕ
get_a = gets (λ s. s.a)

unfoldable pub get_x : M ℕ
get_x = gets (λ s. s.x)

unfoldable pub get_y : M ℕ
get_y = gets (λ s. s.y)

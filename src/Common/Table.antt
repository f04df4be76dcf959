-- ===== src/Common/Table.antt =====
-- Finite tables: a property of the first few numbers is checked by evaluation.
use Prim.Native.Nat.{ℕ, zero, suc, ◌<◌}
use mathlib.Core.Path.{◌≡◌}
use mathlib.Core.Bool.{Bool, true, false}
use native.Mathlib.Omega.{arith}

-- Does `test` hold of the `count` numbers below `count`?
unfoldable pub check_all : (ℕ → Bool) → ℕ → Bool
check_all test zero = true
check_all test (suc k) =
    let lower = check_all test k in elim (test k) [ true ↦ lower | false ↦ false ]

-- the entry of a table that has been checked
pub check_all-entry :
    (test : ℕ → Bool) (count i : ℕ) → i < count → check_all test count ≡ true → test i ≡ true
unfolding check_all
check_all-entry test zero i lt checked = elim lt [ ]
check_all-entry test (suc k) i lt checked = ground (arith, check_all-entry test k i)

-- ===== src/Prelude/Table.antt =====
-- Facts about all small numbers, by evaluation at each of them.
use Prim.Native.Nat.{ℕ, zero, suc, ◌<◌}
use mathlib.Core.Path.{◌≡◌, refl}
use mathlib.Core.Bool.{Bool, true, false, ◌&&◌}
use native.Mathlib.Omega.{arith}

-- `test` holds of all numbers under `bound`, the last one tried first.
unfoldable pub each_under : (ℕ → Bool) → ℕ → Bool
each_under test zero = true
each_under test (suc last) = each_under test last && test last

pub each_under_lem :
    (test : ℕ → Bool) (bound k : ℕ) → each_under test bound ≡ true → k < bound → test k ≡ true
unfolding each_under
each_under_lem test zero k all under = absurd (omega arith)
each_under_lem test (suc last) k all under = ground (arith, each_under_lem test last k)

abbrev pub bool_eq : Bool → Bool → Bool
bool_eq true true = true
bool_eq false false = true
bool_eq _ _ = false

pub bool_eq_sound : (a b : Bool) → bool_eq a b ≡ true → a ≡ b
bool_eq_sound true true h = refl
bool_eq_sound false false h = refl
bool_eq_sound true false h = ground arith
bool_eq_sound false true h = ground arith

-- ===== src/Base/Numbers.antt =====
-- A JavaScript value where the program expects a number, in fixed point: a finite number is an
-- integer multiple of the unit that the module using it names.
use Prim.Native.Nat.{ℕ, suc}
use mathlib.Core.Option.{Option, none, some}
use finance_agent_os.Base.Int.{ℤ, pos}

-- `absent` is every value whose `typeof` is not "number".
pub data Number : Type 0 where
  absent nan infinite negative_infinite : Number
  finite : ℤ → Number

-- The magnitude of `x` unless `typeof x !== "number" || !Number.isFinite(x) || x <= 0`.
unfoldable pub positive_finite : Number → Option ℕ
positive_finite (finite (pos (suc n))) = some (suc n)
positive_finite _ = none

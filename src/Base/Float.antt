-- ===== src/Base/Float.antt =====
-- Go's float64. The type and its operations are a parameter of what computes with them; literals are
-- `lit n k` for n / 10^k. No law is built in: a theorem names the facts of IEEE 754 that it uses.
use optimusdb.Base.Tests.{if◌then◌else◌}
use Prim.Native.Nat.{ℕ}
use mathlib.Core.Bool.{Bool}
use optimusdb.Base.Int.{ℤ}

pub record Float64 : Type 1 where
  pub Float : Type 0
  pub lt : Float → Float → Bool
  pub le : Float → Float → Bool
  pub add : Float → Float → Float
  pub sub : Float → Float → Float
  pub mul : Float → Float → Float
  pub div : Float → Float → Float
  pub log10 : Float → Float
  pub of_int : ℤ → Float
  pub lit : ℕ → ℕ → Float

module _ (fl : Float64) where
  open fl use {Float, lt}

  -- if x > hi { x = hi }
  abbrev pub cap : Float → Float → Float
  cap hi x = if lt hi x then hi else x

  -- if x < lo { x = lo }
  abbrev pub floor_at : Float → Float → Float
  floor_at lo x = if lt x lo then lo else x

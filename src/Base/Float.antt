-- ===== src/Base/Float.antt =====
-- What the program does with a Python `float`: the language has no such type, so its operations
-- are the fields of an interface, over which the model is generic. No law is assumed of them
-- unless a theorem names it. The operations are total: where Python's own would raise, as `math.exp`
-- does on overflow, the interface has a value in place of the exception.
use live_forex_volatility_tr.Base.Names.{ℕ, Bool}
use live_forex_volatility_tr.Base.Tests.{if◌then◌else◌}

pub record Float (F : Type 0) : Type 0 where
  -- An `int` used as a float, and the literal m · 10⁻ᵏ.
  pub of_ℕ : ℕ → F
  pub literal : ℕ → ℕ → F
  pub le : F → F → Bool
  pub lt : F → F → Bool
  pub add : F → F → F
  pub sub : F → F → F
  pub mul : F → F → F
  pub div : F → F → F
  pub log : F → F
  pub exp : F → F
  pub sqrt : F → F
  pub is_finite : F → Bool
  pub nan : F

module _ {F : Type 0} ⦃f : Float F⦄ where
  -- `max(a, b)` and `min(a, b)`: the first argument, unless the second is beyond it.
  abbrev pub fmax : F → F → F
  fmax a b = if f.lt a b then b else a

  abbrev pub fmin : F → F → F
  fmin a b = if f.lt b a then b else a

-- ===== src/Base/Results.antt =====
-- A chain of steps that may fail: a sum with the error on the left.
use mathlib.Core.Logic.{◌⊎◌, inl, inr}

infixl 5 ◌>>=◌
abbrev pub ◌>>=◌ {ℓ κ μ} : {E : Type μ} {A : Type ℓ} {B : Type κ} → E ⊎ A → (A → E ⊎ B) → E ⊎ B
inl e >>= f = inl e
inr a >>= f = f a

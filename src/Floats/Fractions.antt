-- ===== src/Floats/Fractions.antt =====
-- Numbers that meet what is asked of floating-point numbers, for tests.
use stabilitypool.Base.{ℕ, ◌+◌, ◌*◌, ◌/◌, ◌<◌, ◌≡◌, ap, true, arith, ltb, ltb→lt}
use stabilitypool.Floats.{Floats, IsFloats}

-- Exact fractions meet what is asked of floating-point numbers.
abbrev pub fractions : Floats
fractions = record {
  Float = ℕ × ℕ;
  of_int = λ n. (n, 1);
  add = λ x y. (x.0 * y.1 + y.0 * x.1, x.1 * y.1);
  mul = λ x y. (x.0 * y.0, x.1 * y.1);
  div = λ x y. (x.0 * y.1, x.1 * y.0);
  is_less = λ x y. ltb (x.0 * y.1) (y.0 * x.1);
  floor_u64 = λ x. x.0 / x.1;
}

over_one : {a b : ℕ} → a ≡ b → ◌≡◌ {A = ℕ × ℕ} (a, 1) (b, 1)
over_one e = ap (λ (n : ℕ). (n, 1)) e

less_lem : (a b c d : ℕ) → ltb (a * 1 * (1 * d)) (c * 1 * (1 * b)) ≡ true → a * d < c * b
less_lem a b c d h = omega (arith, ltb→lt _ _ h)

pub fractions-IsFloats : IsFloats fractions 53
fractions-IsFloats = record {
  add-eq = λ a b h. over_one (omega arith);
  is_less-div = λ a b c d h1 h2 h3 h4 h5 h6 e. less_lem a b c d e;
}

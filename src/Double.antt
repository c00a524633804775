-- ===== src/Double.antt =====
-- What the schedulers do with a `double`. The arithmetic is that of the processor, so it is a
-- parameter: no law is assumed of it but those that a theorem names. `ceil_u64` is
-- `static_cast<uint64_t>(ceil(x))`, and `of_difference a b` is `(double)a - (double)b`.
use carma_streets.Base.{ℕ, Bool, ◌+◌, ◌-◌, ◌*◌, ◌/◌, ◌^◌, ltb, leb}

pub record Double (F : Type 0) : Type 0 where
  pub of_ℕ : ℕ → F
  pub of_difference : ℕ → ℕ → F
  pub add : F → F → F
  pub sub : F → F → F
  pub neg : F → F
  pub mul : F → F → F
  pub div : F → F → F
  pub pow : F → ℕ → F
  pub sqrt : F → F
  pub lt : F → F → Bool
  pub le : F → F → Bool
  pub ceil_u64 : F → ℕ

-- Whole numbers that round down, stop at 0 and have no sign, for runs on concrete inputs.
abbrev pub whole : Double ℕ
whole = record {
  of_ℕ = λ n. n;
  of_difference = ◌-◌;
  add = ◌+◌;
  sub = ◌-◌;
  neg = λ n. n;
  mul = ◌*◌;
  div = ◌/◌;
  pow = ◌^◌;
  sqrt = λ n. n;
  lt = ltb;
  le = leb;
  ceil_u64 = λ n. n;
}

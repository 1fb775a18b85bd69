-- ===== src/Prelude/Rounding.antt =====
-- Python's `round` of a quotient of natural numbers, and what a rounded quotient stays below.
use Prim.Native.Nat.{ℕ, ◌+◌, ◌*◌, ◌/◌, ◌%◌, ◌≤◌, ◌<◌}
use mathlib.Core.Path.{◌≡◌}
use mathlib.Core.Bool.{Bool, true, false}
use mathlib.Core.Logic.{inl, inr}
use native.Mathlib.Omega.{arith}
use native.Mathlib.Nat.{le-div_iff_mul-le, mul-mod_left, mul-div_cancel}
use opspilot_sre_incident_re.Prelude.Tests.{ltb, if◌then◌else◌, ltb→lt, Bool-cases}

-- Ties go to the even neighbour.
unfoldable pub rounded : ℕ → ℕ → ℕ
rounded n d =
    let q = n / d in
    let r = 2 * (n % d) in if ltb r d then q else if ltb d r then q + 1 else q + q % 2

-- The conditional takes one of its branches.
if-le : (c : Bool) (x y b : ℕ) → x ≤ b → y ≤ b → (if c then x else y) ≤ b
if-le true x y b h k = h
if-le false x y b h k = k

quotient-lt : (n d b : ℕ) → 0 < d → n < b * d → n / d < b
quotient-lt n d b some h = elim (Bool-cases (ltb (n / d) b)) [
  | inl less ↦ ltb→lt (n / d) b less
  | inr high ↦
      let above : b ≤ n / d = ground arith in
      let big : b * d ≤ n = (le-div_iff_mul-le some).0 above in absurd (omega arith)
]

-- A quotient that is at most a whole number is rounded to at most that number.
pub rounded-le : (n d b : ℕ) → 0 < d → n ≤ b * d → rounded n d ≤ b
unfolding rounded
rounded-le n d b some h = elim (Bool-cases (ltb n (b * d))) [
  | inl less ↦
      let below : n / d < b = quotient-lt n d b some (ltb→lt n (b * d) less) in
      let even : n / d % 2 ≤ 1 = omega arith in
      if-le (ltb (2 * (n % d)) d) (n / d) _ b (omega arith)
        (if-le (ltb d (2 * (n % d))) (n / d + 1) _ b (omega arith) (omega arith))
  | inr high ↦
      let whole : n ≡ b * d = ground arith in
      rw whole (rw (mul-mod_left b d) (rw (mul-div_cancel b some) (ground arith)))
]

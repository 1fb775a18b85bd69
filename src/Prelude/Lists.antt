-- ===== src/Prelude/Lists.antt =====
-- Lists measured by native numbers, under the library's names, and tests over a list.
use Prim.Native.Nat.{ℕ, zero, suc, ◌+◌, ◌≤◌}
use mathlib.Core.Path.{◌≡◌, refl, sym, ap, ◌∙◌}
use mathlib.Core.Bool.{Bool, true, false, ◌&&◌, ◌||◌}
use mathlib.Core.List.{List, [], ◌∷◌, ◌++◌}
use mathlib.Core.Option.{Option, none, some}
use mathlib.Core.Logic.{◌⊎◌, inl, inr}
use native.Mathlib.Omega.{arith}
use opspilot_sre_incident_re.Prelude.Tests.{if◌then◌else◌, Bool-cases}

module _ {ℓ} {A : Type ℓ} where
  abbrev pub length : List A → ℕ
  length [] = 0
  length (x ∷ xs) = suc (length xs)

  abbrev pub take : ℕ → List A → List A
  take zero xs = []
  take (suc n) [] = []
  take (suc n) (x ∷ xs) = x ∷ take n xs

  abbrev pub drop : ℕ → List A → List A
  drop zero xs = xs
  drop (suc n) [] = []
  drop (suc n) (x ∷ xs) = drop n xs

  -- `[x for x in xs if p(x)]`
  abbrev pub keep : (A → Bool) → List A → List A
  keep p [] = []
  keep p (x ∷ xs) = if p x then x ∷ keep p xs else keep p xs

  -- `any(p(x) for x in xs)`
  abbrev pub any : (A → Bool) → List A → Bool
  any p [] = false
  any p (x ∷ xs) = p x || any p xs

  -- `all(p(x) for x in xs)`
  abbrev pub all : (A → Bool) → List A → Bool
  all p [] = true
  all p (x ∷ xs) = p x && all p xs

  -- The first element that passes, as of a query by a unique column.
  abbrev pub find : (A → Bool) → List A → Option A
  find p [] = none
  find p (x ∷ xs) = if p x then some x else find p xs

  pub length-append : (xs ys : List A) → length (xs ++ ys) ≡ length xs + length ys
  length-append [] ys = omega arith
  length-append (x ∷ xs) ys = omega (arith, length-append xs ys)

  pub length-keep : (p : A → Bool) (xs : List A) → length (keep p xs) ≤ length xs
  length-keep p [] = omega arith
  length-keep p (x ∷ xs) = ground (arith, length-keep p xs)

  pub length-take-le : (n : ℕ) (xs : List A) → length (take n xs) ≤ n
  length-take-le zero xs = omega arith
  length-take-le (suc n) [] = omega arith
  length-take-le (suc n) (x ∷ xs) = omega (arith, length-take-le n xs)

  -- Nothing is left behind a prefix that is at least as long as the list.
  pub drop-all : (n : ℕ) (xs : List A) → length xs ≤ n → drop n xs ≡ []
  drop-all zero [] h = refl
  drop-all zero (x ∷ xs) h = absurd (omega arith)
  drop-all (suc n) [] h = refl
  drop-all (suc n) (x ∷ xs) h = drop-all n xs (omega arith)

-- Every element has the property.
abbrev pub All {ℓ κ} : {A : Type ℓ} → (A → Type κ) → List A → Type κ
All P [] = Unit
All P (x ∷ xs) = P x × All P xs

pub All-append {ℓ κ} :
    {A : Type ℓ} (P : A → Type κ) (xs ys : List A) → All P xs → All P ys → All P (xs ++ ys)
All-append P [] ys h k = k
All-append P (x ∷ xs) ys h k = (h.0, All-append P xs ys h.1 k)

-- An element stands in the list.
abbrev pub In : {A : Type 0} → A → List A → Type 0
In x [] = ⊥
In x (y ∷ ys) = (x ≡ y) ⊎ In x ys

In-keep_cons :
    {A : Type 0} (p : A → Bool) (x y : A) (ys : List A)
    → (In x (keep p ys) → (p x ≡ true) × In x ys)
    → p y ≡ true
    → (x ≡ y) ⊎ In x (keep p ys)
    → (p x ≡ true) × In x (y ∷ ys)
In-keep_cons p x y ys later passed (inl same) = (ap p same ∙ passed, inl same)
In-keep_cons p x y ys later passed (inr more) = let (q, there) = later more in (q, inr there)

pub In-keep :
    {A : Type 0} (p : A → Bool) (x : A) (xs : List A) → In x (keep p xs) → (p x ≡ true) × In x xs
In-keep p x [] h = absurd h
In-keep p x (y ∷ ys) h = elim (Bool-cases (p y)) [
  | inl passed ↦ In-keep_cons p x y ys (In-keep p x ys) passed (rw passed at h)
  | inr failed ↦ (let (q, there) = In-keep p x ys (rw failed at h) in (q, inr there))
]

pub keep-In :
    {A : Type 0} (p : A → Bool) (x : A) (xs : List A) → p x ≡ true → In x xs → In x (keep p xs)
keep-In p x [] q h = h
keep-In p x (y ∷ ys) q (inl same) = let r : p y ≡ true = ap p (sym same) ∙ q in rw r (inl same)
keep-In p x (y ∷ ys) q (inr there) = elim (Bool-cases (p y)) [
  | inl passed ↦ rw passed (inr (keep-In p x ys q there))
  | inr failed ↦ rw failed (keep-In p x ys q there)
]

pub In-take : {A : Type 0} (n : ℕ) (x : A) (xs : List A) → In x (take n xs) → In x xs
In-take zero x xs h = absurd h
In-take (suc n) x [] h = absurd h
In-take (suc n) x (y ∷ ys) (inl same) = inl same
In-take (suc n) x (y ∷ ys) (inr there) = inr (In-take n x ys there)

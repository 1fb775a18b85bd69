-- ===== src/Prelude/Dicts.antt =====
-- A Python dict with `str` keys, as an association list: reads take the first entry of a key.
use Prim.Native.String.{String}
use mathlib.Core.Path.{◌≡◌, subst}
use mathlib.Core.List.{List, [], ◌∷◌}
use mathlib.Core.Option.{Option, none, some}
use mathlib.Core.Bool.{Bool, false}
use mathlib.Core.Logic.{inl, inr}
use text.Mathlib.Text.{◌==◌}
use text.Mathlib.TextEquality.{eq_iff}
use opspilot_sre_incident_re.Prelude.Tests.{if◌then◌else◌, is_some, Bool-cases}

module _ {ℓ} {V : Type ℓ} where
  -- `d.get(k)`
  abbrev pub lookup : String → List (String × V) → Option V
  lookup k [] = none
  lookup k ((j, v) ∷ d) = if j == k then some v else lookup k d

  -- `k in d`
  abbrev pub has_key : String → List (String × V) → Bool
  has_key k d = is_some (lookup k d)

-- `d.get(k, default)`
abbrev pub get_or {ℓ} : {V : Type ℓ} → Option V → V → V
get_or none d = d
get_or (some v) d = v

-- A statement about every text, from the statement at one text and at all others.
pub text_split {ℓ} : (P : String → Type ℓ) (k a : String) → P k → (k == a ≡ false → P a) → P a
text_split P k a hit miss = elim (Bool-cases (k == a)) [
  | inl e ↦ subst P ((eq_iff k a).0 e) hit
  | inr e ↦ miss e
]

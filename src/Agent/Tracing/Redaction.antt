-- ===== src/Agent/Tracing/Redaction.antt =====
-- The redaction of src/opspilot/agent/tracing.py: what is left of a payload.
use opspilot_sre_incident_re.Prelude.{
  ℕ, ◌+◌, ◌≡◌, refl, sym, ◌∙◌, ap, String, List, [], ◌∷◌, ◌==◌, ◌||◌, leb, ltb, any, codes,
  lower_code, map, arith, Bool, true, false, ◌&&◌, Bool-cases, inl, inr, if◌then◌else◌,
}
use text.Mathlib.Text.{◌==◌ as str_eq}
use opspilot_sre_incident_re.Agent.Tracing.{
  Value, none_value, bool_value, num_value, text_value, list_value, tuple_value, dict_value,
  model_value, Values, no_values, value, Entries, no_entries, entry, is_secret, same_codes, redact,
  redact_values, redact_entries, to_jsonable, to_jsonable_values, to_jsonable_entries,
}

-- The names of the keys whose values are secret.
abbrev pub secret_names : List String
secret_names = "api_key" ∷ "authorization" ∷ "x-api-key" ∷ "password" ∷ "secret" ∷ "token" ∷ []

-- The same character, or the same letter of the other case: a capital stands for the small one.
abbrev pub same_letter : ℕ → ℕ → Bool
same_letter c n = (c == n) || (leb 65 c && leb c 90 && (c + 32 == n))

abbrev pub spells : List ℕ → List ℕ → Bool
spells [] [] = true
spells (c ∷ key) (n ∷ name) = same_letter c n && spells key name
spells _ _ = false

-- Is the key one of these names, in capitals, small letters or both?
abbrev pub names_secret : String → Bool
names_secret key = any (λ name. spells (codes key) (codes name)) secret_names

abbrev is_redacted : Value → Bool
is_redacted (text_value s) = str_eq s "[REDACTED]"
is_redacted _ = false

abbrev mutual
  -- At every depth, a value under a key that names a secret is the placeholder, and no model or tuple is left
  -- that the redaction would not enter.
  pub is_clean : Value → Bool
  is_clean (dict_value d) = are_clean_entries d
  is_clean (list_value vs) = are_clean vs
  is_clean (tuple_value vs) = false
  is_clean (model_value d) = false
  is_clean _ = true

  are_clean : Values → Bool
  are_clean no_values = true
  are_clean (value v vs) = is_clean v && are_clean vs

  are_clean_entries : Entries → Bool
  are_clean_entries no_entries = true
  are_clean_entries (entry k v d) =
      let inner = is_clean v in
      (if names_secret k then is_redacted v else inner) && are_clean_entries d

lowered-same_letter :
    (c n : ℕ) → leb 91 n || ltb n 65 ≡ true → (lower_code c == n) ≡ same_letter c n
lowered-same_letter c n small = ground arith

-- A name without capitals.
abbrev is_small : List ℕ → Bool
is_small [] = true
is_small (n ∷ name) = (leb 91 n || ltb n 65) && is_small name

lower-spells :
    (key name : List ℕ)
    → is_small name ≡ true
    → same_codes (map lower_code key) name ≡ spells key name
lower-spells [] [] small = refl
lower-spells [] (n ∷ name) small = refl
lower-spells (c ∷ key) [] small = refl
lower-spells (c ∷ key) (n ∷ name) small =
    let first : leb 91 n || ltb n 65 ≡ true = ground (arith, small) in
    let more : is_small name ≡ true = ground (arith, small) in
    rw (lowered-same_letter c n first) (rw (lower-spells key name more) refl)

is_secret-names_secret : (key : String) → is_secret key ≡ names_secret key
unfolding is_secret
is_secret-names_secret key = rw (lower-spells (codes key) (codes "api_key") refl) (
    rw (lower-spells (codes key) (codes "authorization") refl) (
      rw (lower-spells (codes key) (codes "x-api-key") refl) (
        rw (lower-spells (codes key) (codes "password") refl) (
          rw (lower-spells (codes key) (codes "secret") refl)
            (rw (lower-spells (codes key) (codes "token") refl) refl)))))

both : (a b : Bool) → a ≡ true → b ≡ true → (a && b) ≡ true
both a b h k = rw h k

mutual
  unfolding redact to_jsonable

  redact-is_clean : (v : Value) → is_clean (redact (to_jsonable v)) ≡ true
  redact-is_clean (dict_value d) = redact_entries-are_clean_entries d
  redact-is_clean (model_value d) = redact_entries-are_clean_entries d
  redact-is_clean (list_value vs) = redact_values-are_clean vs
  redact-is_clean (tuple_value vs) = redact_values-are_clean vs
  redact-is_clean none_value = refl
  redact-is_clean (bool_value b) = refl
  redact-is_clean (num_value n) = refl
  redact-is_clean (text_value s) = refl

  redact_values-are_clean : (vs : Values) → are_clean (redact_values (to_jsonable_values vs)) ≡ true
  redact_values-are_clean no_values = refl
  redact_values-are_clean (value v vs) = both _ _ (redact-is_clean v) (redact_values-are_clean vs)

  redact_entries-are_clean_entries :
      (d : Entries) → are_clean_entries (redact_entries (to_jsonable_entries d)) ≡ true
  redact_entries-are_clean_entries no_entries = refl
  redact_entries-are_clean_entries (entry k v d) = elim (Bool-cases (is_secret k)) [
    | inl secret ↦
        let named : names_secret k ≡ true = sym (is_secret-names_secret k) ∙ secret in
        rw secret (rw named (redact_entries-are_clean_entries d))
    | inr shown ↦
        let unnamed : names_secret k ≡ false = sym (is_secret-names_secret k) ∙ shown in
        rw shown (rw unnamed (both _ _ (redact-is_clean v) (redact_entries-are_clean_entries d)))
  ]

mutual
  unfolding redact

  redact_twice : (v : Value) → redact (redact v) ≡ redact v
  redact_twice (dict_value d) = ap dict_value (redact_entries_twice d)
  redact_twice (list_value vs) = ap list_value (redact_values_twice vs)
  redact_twice (tuple_value vs) = refl
  redact_twice (model_value d) = refl
  redact_twice none_value = refl
  redact_twice (bool_value b) = refl
  redact_twice (num_value n) = refl
  redact_twice (text_value s) = refl

  redact_values_twice : (vs : Values) → redact_values (redact_values vs) ≡ redact_values vs
  redact_values_twice no_values = refl
  redact_values_twice (value v vs) = rw (redact_twice v) (rw (redact_values_twice vs) refl)

  redact_entries_twice : (d : Entries) → redact_entries (redact_entries d) ≡ redact_entries d
  redact_entries_twice no_entries = refl
  redact_entries_twice (entry k v d) = elim (Bool-cases (is_secret k)) [
    | inl secret ↦ rw secret (rw (redact_entries_twice d) refl)
    | inr shown ↦ rw shown (rw (redact_twice v) (rw (redact_entries_twice d) refl))
  ]

-- Of every payload, made jsonable and redacted, at every depth a value is the placeholder if its key
-- is `api_key`, `authorization`, `x-api-key`, `password`, `secret` or `token`, in capitals, small
-- letters or both, and no model or tuple is left that the redaction would not enter. Redacting again
-- changes nothing.
pub redact-to_jsonable :
    (v : Value)
    → (is_clean (redact (to_jsonable v)) ≡ true)
      × (redact (redact (to_jsonable v)) ≡ redact (to_jsonable v))
redact-to_jsonable v = (redact-is_clean v, redact_twice (to_jsonable v))

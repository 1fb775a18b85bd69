-- ===== src/Agent/Nodes/Grounding.antt =====
-- `_looks_grounded` of src/opspilot/agent/nodes.py against what it means.
use opspilot_sre_incident_re.Prelude.{
  ℕ, ◌≡◌, ◌<◌, refl, subst, In, In-keep, keep-In, ltb, ltb→lt, lower, ap, ◌⊎◌, ◌↔◌, inl, inr,
  String, true, List, [], ◌∷◌, ◌++◌, arith, Bool-cases, has_prefix, has_infix, any, length,
}
use opspilot_sre_incident_re.Agent.Nodes.Ground.{
  tokens_of, long_tokens, grounded_by, looks_grounded,
}
use opspilot_sre_incident_re.Agent.Nodes.Tokens.{Token, tokens_of_iff}

-- `blob` holds `s`: some text, `s`, and some text.
abbrev pub Occurs : List ℕ → List ℕ → Type 0
Occurs s blob = (front : List ℕ) × (back : List ℕ) × (blob ≡ front ++ (s ++ back))

has_prefix_sound : (s t : List ℕ) → has_prefix s t ≡ true → (back : List ℕ) × (t ≡ s ++ back)
has_prefix_sound [] t h = (t, refl)
has_prefix_sound (a ∷ s) [] h = absurd (ground arith)
has_prefix_sound (a ∷ s) (b ∷ t) h =
    let (back, e) = has_prefix_sound s t (ground arith) in (back, ground arith)

has_prefix_complete : (s back : List ℕ) → has_prefix s (s ++ back) ≡ true
has_prefix_complete [] back = refl
has_prefix_complete (a ∷ s) back = ground (arith, has_prefix_complete s back)

has_infix_sound : (s t : List ℕ) → has_infix s t ≡ true → Occurs s t
has_infix_sound s [] h = let (back, e) = has_prefix_sound s [] h in ([], back, e)
has_infix_sound s (b ∷ t) h = elim (Bool-cases (has_prefix s (b ∷ t))) [
  | inl here ↦ (let (back, e) = has_prefix_sound s (b ∷ t) here in ([], back, e))
  | inr there ↦
      (let (front, back, e) = has_infix_sound s t (rw there at h) in
        (b ∷ front, back, ap (◌∷◌ b) e))
]

has_infix-of_prefix : (s t : List ℕ) → has_prefix s t ≡ true → has_infix s t ≡ true
has_infix-of_prefix s [] h = h
has_infix-of_prefix s (b ∷ t) h = rw h

has_infix_complete : (s front back : List ℕ) → has_infix s (front ++ (s ++ back)) ≡ true
has_infix_complete s [] back = has_infix-of_prefix s (s ++ back) (has_prefix_complete s back)
has_infix_complete s (b ∷ front) back = ground (arith, has_infix_complete s front back)

-- A token of the list that occurs in `blob`.
abbrev pub SomeOccurs : List (List ℕ) → List ℕ → Type 0
SomeOccurs [] blob = ⊥
SomeOccurs (t ∷ ts) blob = Occurs t blob ⊎ SomeOccurs ts blob

any_sound :
    (ts : List (List ℕ)) (blob : List ℕ)
    → any (λ t. has_infix t blob) ts ≡ true
    → SomeOccurs ts blob
any_sound [] blob h = absurd (ground arith)
any_sound (t ∷ ts) blob h = elim (Bool-cases (has_infix t blob)) [
  | inl here ↦ inl (has_infix_sound t blob here)
  | inr there ↦ inr (any_sound ts blob (rw there at h))
]

any_complete :
    (ts : List (List ℕ)) (blob : List ℕ)
    → SomeOccurs ts blob
    → any (λ t. has_infix t blob) ts ≡ true
any_complete [] blob h = absurd h
any_complete (t ∷ ts) blob (inl (front, back, e)) = rw (e, has_infix_complete t front back)
any_complete (t ∷ ts) blob (inr h) = ground (arith, any_complete ts blob h)

grounded_by_iff :
    (ts : List (List ℕ)) (blob : List ℕ)
    → (grounded_by ts blob ≡ true) ↔ ((ts ≡ []) ⊎ SomeOccurs ts blob)
unfolding grounded_by
grounded_by_iff [] blob = (λ _. inl refl, λ _. refl)
grounded_by_iff (t ∷ ts) blob = (
  λ h. inr (any_sound (t ∷ ts) blob h),
  elim [ inl e ↦ absurd (cc) | inr h ↦ any_complete (t ∷ ts) blob h ],
)

-- A token of the citation in small letters that has more than three characters.
abbrev pub IsLong : String → List ℕ → Type 0
IsLong citation t = Token (lower citation) t × (3 < length t)

long_tokens_iff : (citation : String) (t : List ℕ) → In t (long_tokens citation) ↔ IsLong citation t
unfolding long_tokens
long_tokens_iff citation t = (
  λ i.
      let (long, there) = In-keep (λ x. ltb 3 (length x)) t (tokens_of (lower citation)) i in
      ((tokens_of_iff (lower citation) t).0 there, ltb→lt 3 (length t) long),
  λ (token, long).
      keep-In (λ x. ltb 3 (length x)) t (tokens_of (lower citation)) (ground (arith, long))
        ((tokens_of_iff (lower citation) t).1 token),
)

SomeOccurs-In :
    (ts : List (List ℕ)) (blob : List ℕ)
    → SomeOccurs ts blob
    → (t : List ℕ) × In t ts × Occurs t blob
SomeOccurs-In [] blob h = absurd h
SomeOccurs-In (t ∷ ts) blob (inl here) = (t, inl refl, here)
SomeOccurs-In (t ∷ ts) blob (inr there) =
    let (x, i, o) = SomeOccurs-In ts blob there in (x, inr i, o)

In-SomeOccurs :
    (ts : List (List ℕ)) (blob t : List ℕ) → In t ts → Occurs t blob → SomeOccurs ts blob
In-SomeOccurs [] blob t i o = absurd i
In-SomeOccurs (x ∷ ts) blob t (inl same) o = inl (subst (λ y. Occurs y blob) same o)
In-SomeOccurs (x ∷ ts) blob t (inr i) o = inr (In-SomeOccurs ts blob t i o)

empty_or_In : (ts : List (List ℕ)) → (ts ≡ []) ⊎ ((t : List ℕ) × In t ts)
empty_or_In [] = inl refl
empty_or_In (t ∷ ts) = inr (t, inl refl)

-- A citation passes exactly if it has no token of more than three characters, or such a token of it
-- occurs in what was gathered. A token is a part of the citation in small letters that holds no
-- colon and no white space, and that stands between these or the ends of the citation.
pub looks_grounded_iff :
    (citation : String) (blob : List ℕ)
    → (looks_grounded citation blob ≡ true) ↔ (
        (¬ ((t : List ℕ) × IsLong citation t)) ⊎ ((t : List ℕ) × IsLong citation t × Occurs t blob))
unfolding looks_grounded
looks_grounded_iff citation blob =
    let ts = long_tokens citation in
    (
      λ h. elim ((grounded_by_iff ts blob).0 h) [
        | inl none_long ↦
            inl (λ (t, long). subst (λ l. In t l) none_long ((long_tokens_iff citation t).1 long))
        | inr some_occurs ↦
            let (t, i, o) = SomeOccurs-In ts blob some_occurs in
            inr (t, (long_tokens_iff citation t).0 i, o)
      ],
      elim [
        | inl none_long ↦ elim (empty_or_In ts) [
          | inl e ↦ (grounded_by_iff ts blob).1 (inl e)
          | inr (t, i) ↦ absurd (none_long (t, (long_tokens_iff citation t).0 i))
        ]
        | inr (t, long, o) ↦
            (grounded_by_iff ts blob).1
              (inr (In-SomeOccurs ts blob t ((long_tokens_iff citation t).1 long) o))
      ],
    )

-- ===== src/Agent/Nodes/Tokens.antt =====
-- The tokens of `_looks_grounded` of src/opspilot/agent/nodes.py: what `re.split` stands for.
use opspilot_sre_incident_re.Prelude.{
  ℕ, ◌≡◌, ◌↔◌, refl, sym, ap, subst, ◌∙◌, ◌⊎◌, inl, inr, Bool, true, false, not, ◌&&◌, ◌||◌, List,
  [], ◌∷◌, ◌++◌, leb, ◌==◌, Bool-cases, In,
}
use opspilot_sre_incident_re.Agent.Nodes.Ground.{is_separator, first_to, tokens_of}

-- A colon, or ASCII white space.
abbrev pub separates : ℕ → Bool
separates c = c == 58 || (leb 9 c && leb c 13) || (leb 28 c && leb c 32)

abbrev pub is_word : List ℕ → Bool
is_word [] = true
is_word (c ∷ t) = not (separates c) && is_word t

-- Nothing, or a text that begins with a separator.
abbrev pub starts_apart : List ℕ → Bool
starts_apart [] = true
starts_apart (c ∷ t) = separates c

-- Nothing, or a text that ends with a separator.
abbrev pub ends_apart : List ℕ → Bool
ends_apart [] = true
ends_apart (c ∷ []) = separates c
ends_apart (c ∷ d ∷ t) = ends_apart (d ∷ t)

-- `t` stands in `cs` without separators, and between separators or ends of the text.
abbrev pub Token : List ℕ → List ℕ → Type 0
Token cs t =
    (front : List ℕ) × (back : List ℕ) × (cs ≡ front ++ (t ++ back))
    × (ends_apart front ≡ true)
    × (is_word t ≡ true)
    × (starts_apart back ≡ true)

-- At the beginning, and behind some text.
abbrev Head : List ℕ → List ℕ → Type 0
Head cs t = (back : List ℕ) × (cs ≡ t ++ back) × (is_word t ≡ true) × (starts_apart back ≡ true)

abbrev Later : List ℕ → List ℕ → Type 0
Later cs t =
    (c : ℕ) × (front : List ℕ) × (back : List ℕ) × (cs ≡ c ∷ (front ++ (t ++ back)))
    × (ends_apart (c ∷ front) ≡ true)
    × (is_word t ≡ true)
    × (starts_apart back ≡ true)

-- The first of the tokens is the one at the beginning, the others are those behind some text.
abbrev IsSplit : List ℕ → List (List ℕ) → Type 0
IsSplit cs [] = ⊥
IsSplit cs (r ∷ rs) =
    Head cs r
    × ((t : List ℕ) → In t rs → Later cs t)
    × ((t : List ℕ) → Head cs t → t ≡ r)
    × ((t : List ℕ) → Later cs t → In t rs)

abbrev tail_of : List ℕ → List ℕ
tail_of [] = []
tail_of (c ∷ cs) = cs

abbrev head_or : ℕ → List ℕ → ℕ
head_or d [] = d
head_or d (c ∷ cs) = c

head_eq : (c d : ℕ) (cs ds : List ℕ) → c ∷ cs ≡ d ∷ ds → c ≡ d
head_eq c d cs ds e = ap (head_or c) e

separates_eq :
    (c d : ℕ) (b : Bool) (cs ds : List ℕ) → c ∷ cs ≡ d ∷ ds → separates d ≡ b → separates c ≡ b
separates_eq c d b cs ds e h = ap separates (head_eq c d cs ds e) ∙ h

word_first : (c : ℕ) (t : List ℕ) → is_word (c ∷ t) ≡ true → separates c ≡ false
word_first c t h = elim (Bool-cases (separates c)) [
  | inl a ↦ let no : is_word (c ∷ t) ≡ false = rw a refl in absurd (cc)
  | inr a ↦ a
]

word_rest : (c : ℕ) (t : List ℕ) → is_word (c ∷ t) ≡ true → is_word t ≡ true
word_rest c t h = rw (word_first c t h) at h

word_cons : (c : ℕ) (t : List ℕ) → separates c ≡ false → is_word t ≡ true → is_word (c ∷ t) ≡ true
word_cons c t a h = rw a h

-- Behind one more character.
shifted : (c : ℕ) (cs t : List ℕ) → Later cs t → Later (c ∷ cs) t
shifted c cs t (d, front, back, e, ends, word, starts) =
    (c, d ∷ front, back, ap (◌∷◌ c) e, ends, word, starts)

empty-Head : (t : List ℕ) → Head [] t → t ≡ []
empty-Head [] h = refl
empty-Head (c ∷ t) (back, e, word, starts) = absurd cc

-- What stands later behind a character stands at the beginning of the rest, or later in it.
unshifted :
    (c : ℕ) (cs t : List ℕ) → Later (c ∷ cs) t → ((separates c ≡ true) × Head cs t) ⊎ Later cs t
unshifted c cs t (d, [], back, e, ends, word, starts) =
    inl (separates_eq c d true cs _ e ends, (back, ap tail_of e, word, starts))
unshifted c cs t (d, f ∷ front, back, e, ends, word, starts) =
    inr (f, front, back, ap tail_of e, ends, word, starts)

separator-IsSplit :
    (c : ℕ) (cs : List ℕ) (ts : List (List ℕ))
    → separates c ≡ true
    → IsSplit cs ts
    → IsSplit (c ∷ cs) ([] ∷ ts)
separator-IsSplit c cs [] s h = absurd h
separator-IsSplit c cs (r ∷ rs) s ((back, e, word, starts), after, first, behind) = (
  (c ∷ cs, refl, refl, s),
  λ t. elim [
    | inl same ↦ (
      c,
      [],
      back,
      ap (◌∷◌ c) (e ∙ ap (λ x. x ++ back) (sym same)),
      s,
      ap is_word same ∙ word,
      starts,
    )
    | inr i ↦ shifted c cs t (after t i)
  ],
  λ t h. at_front t h,
  λ t h. elim (unshifted c cs t h) [
    | inl (_, here) ↦ inl (first t here)
    | inr there ↦ inr (behind t there)
  ],
)
  where
    at_front : (t : List ℕ) → Head (c ∷ cs) t → t ≡ []
    at_front [] h = refl
    at_front (x ∷ t) (b, f, w, st) =
        let no : separates c ≡ false = separates_eq c x false cs (t ++ b) f (word_first x t w) in
        absurd cc

letter-IsSplit :
    (c : ℕ) (cs : List ℕ) (ts : List (List ℕ))
    → separates c ≡ false
    → IsSplit cs ts
    → IsSplit (c ∷ cs) (first_to c ts)
letter-IsSplit c cs [] s h = absurd h
letter-IsSplit c cs (r ∷ rs) s ((back, e, word, starts), after, first, behind) = (
  (back, ap (◌∷◌ c) e, word_cons c r s word, starts),
  λ t i. shifted c cs t (after t i),
  λ t h. at_front t h,
  λ t h. elim (unshifted c cs t h) [ inl (sep, _) ↦ absurd cc | inr there ↦ behind t there ],
)
  where
    at_front : (t : List ℕ) → Head (c ∷ cs) t → t ≡ c ∷ r
    at_front [] (b, f, w, st) =
        let yes_sep : separates c ≡ true = subst (λ x. starts_apart x ≡ true) (sym f) st in
        absurd cc
    at_front (x ∷ t) (b, f, w, st) =
        let same : x ≡ c = sym (head_eq c x cs (t ++ b) f) in
        let rest : t ≡ r = first t (b, ap tail_of f, word_rest x t w, st) in
        ap (λ y. y ∷ t) same ∙ ap (λ y. c ∷ y) rest

tokens_of-IsSplit : (cs : List ℕ) → IsSplit cs (tokens_of cs)
unfolding tokens_of is_separator
tokens_of-IsSplit [] = (
  ([], refl, refl, refl),
  λ t i. absurd i,
  λ t h. empty-Head t h,
  λ t (c, front, back, e, ends, word, starts). absurd cc,
)
tokens_of-IsSplit (c ∷ cs) = elim (Bool-cases (separates c)) [
  | inl sep ↦ rw sep (separator-IsSplit c cs (tokens_of cs) sep (tokens_of-IsSplit cs))
  | inr letter ↦ rw letter (letter-IsSplit c cs (tokens_of cs) letter (tokens_of-IsSplit cs))
]

split_iff : (cs t : List ℕ) (ts : List (List ℕ)) → IsSplit cs ts → In t ts ↔ Token cs t
split_iff cs t [] h = absurd h
split_iff cs t (r ∷ rs) ((back, e, word, starts), after, first, behind) = (
  elim [
    | inl same ↦
        ([], back, e ∙ ap (λ x. x ++ back) (sym same), refl, ap is_word same ∙ word, starts)
    | inr i ↦ (let (c, front, b, f, ends, w, st) = after t i in (c ∷ front, b, f, ends, w, st))
  ],
  λ h. found h,
)
  where
    found : Token cs t → In t (r ∷ rs)
    found ([], b, f, ends, w, st) = inl (first t (b, f, w, st))
    found (c ∷ front, b, f, ends, w, st) = inr (behind t (c, front, b, f, ends, w, st))

-- The tokens of a text are the maximal parts of it without separators, and the empty parts between
-- two separators.
pub tokens_of_iff : (cs t : List ℕ) → In t (tokens_of cs) ↔ Token cs t
tokens_of_iff cs t = split_iff cs t (tokens_of cs) (tokens_of-IsSplit cs)

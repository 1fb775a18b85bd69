-- ===== src/Prelude/Text.antt =====
-- Python's `str`: concatenation of the parts of an f-string, code points, prefixes, decimals.
use Prim.Native.Nat.{ℕ, zero, suc, ◌+◌, ◌/◌, ◌%◌}
use Prim.Native.Char.{code}
use Prim.Native.String.{String, ◌++◌}
use mathlib.Core.List.{List, map}
use mathlib.Core.Bool.{Bool, true, false, ◌&&◌, ◌||◌}
use opspilot_sre_incident_re.Prelude.Tests.{ltb, leb, ◌==◌, if◌then◌else◌}

-- The parts of an f-string, or of `a + b + c`.
abbrev pub concat : List String → String
concat List.[] = ""
concat (List.◌∷◌ s r) = s ++ concat r

-- `sep.join(parts)`
abbrev pub join : String → List String → String
join sep List.[] = ""
join sep (List.◌∷◌ s List.[]) = s
join sep (List.◌∷◌ s (List.◌∷◌ t r)) = s ++ (sep ++ join sep (List.◌∷◌ t r))

-- The code points of a text.
abbrev pub codes : String → List ℕ
codes String.[] = List.[]
codes (String.◌∷◌ c s) = List.◌∷◌ (code c) (codes s)

-- `len(text)`
abbrev pub text_length : String → ℕ
text_length String.[] = 0
text_length (String.◌∷◌ c s) = suc (text_length s)

-- `text[:n]`
abbrev pub text_take : ℕ → String → String
text_take zero s = ""
text_take (suc n) String.[] = ""
text_take (suc n) (String.◌∷◌ c s) = String.◌∷◌ c (text_take n s)

-- A character in front of the first part.
abbrev extend_first : String → List String → List String
extend_first c List.[] = List.◌∷◌ c List.[]
extend_first c (List.◌∷◌ part parts) = List.◌∷◌ (c ++ part) parts

-- `text.split(sep)`, of the code point of a separator.
abbrev pub split : ℕ → String → List String
split sep String.[] = List.◌∷◌ "" List.[]
split sep (String.◌∷◌ c s) =
    let parts = split sep s in
    if code c == sep then List.◌∷◌ "" parts else extend_first (String.◌∷◌ c String.[]) parts

pub digit : ℕ → String
digit d =
    if d == 0
    then "0"
    else if d == 1
    then "1"
    else if d == 2
    then "2"
    else if d == 3
    then "3"
    else if d == 4
    then "4"
    else if d == 5
    then "5"
    else if d == 6
    then "6"
    else if d == 7
    then "7"
    else if d == 8
    then "8"
    else "9"

-- The last of `fuel` digits and those before it; a number has fewer digits than its value plus 1.
pub decimal_from : ℕ → ℕ → String
decimal_from zero n = ""
decimal_from (suc fuel) n =
    let front = decimal_from fuel (n / 10) in if ltb n 10 then digit n else front ++ digit (n % 10)

-- `str(n)` of a number that is not negative.
unfoldable pub decimal : ℕ → String
unfolding decimal_from digit
decimal n = decimal_from (suc n) n

-- `str.lower` on ASCII letters, as code points.
abbrev pub lower_code : ℕ → ℕ
lower_code c = if leb b'A' c && leb c b'Z' then c + 32 else c

abbrev pub lower : String → List ℕ
lower s = map lower_code (codes s)

abbrev pub has_prefix : List ℕ → List ℕ → Bool
has_prefix List.[] t = true
has_prefix (List.◌∷◌ a s) List.[] = false
has_prefix (List.◌∷◌ a s) (List.◌∷◌ b t) = (a == b) && has_prefix s t

-- `s in t`
abbrev pub has_infix : List ℕ → List ℕ → Bool
has_infix s List.[] = has_prefix s List.[]
has_infix s (List.◌∷◌ b t) = has_prefix s (List.◌∷◌ b t) || has_infix s t

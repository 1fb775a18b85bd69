-- ===== src/Json.antt =====
-- The JSON values that the program passes about: Python's `dict`, `list`, `str`, numbers, `bool`
-- and `None`, as they stand in tool arguments, tool results, decisions and JSONB columns.
-- `json.dumps` is written out for texts of printable ASCII
-- characters, tabs and line ends, with its default separators; numbers are not negative, and a
-- `float` is given in millionths.
use opspilot_sre_incident_re.Prelude.{
  ℕ, String, Bool, true, false, Option, none, some, str_eq, ◌==◌, not, if◌then◌else◌, concat,
  decimal, float_text, List, [], ◌∷◌,
}
use Prim.Native.Char.{code}

mutual
  pub data Json : Type 0 where
    null : Json
    bool : Bool → Json
    num : ℕ → Json
    float : ℕ → Json
    text : String → Json
    arr : Items → Json
    obj : Fields → Json

  pub data Items : Type 0 where
    nil : Items
    cons : Json → Items → Items

  pub data Fields : Type 0 where
    end : Fields
    field : String → Json → Fields → Fields

-- `d.get(k)`
abbrev pub get : String → Fields → Option Json
get k end = none
get k (field j v d) = if str_eq j k then some v else get k d

-- `{**d, k: v}`
abbrev pub put : String → Json → Fields → Fields
put k v end = field k v end
put k v (field j w d) = if str_eq j k then field j v d else field j w (put k v d)

-- `bool(v)`
abbrev pub truthy : Json → Bool
truthy null = false
truthy (bool b) = b
truthy (num n) = not (n == 0)
truthy (float n) = not (n == 0)
truthy (text s) = not (str_eq s "")
truthy (arr nil) = false
truthy (arr (cons _ _)) = true
truthy (obj end) = false
truthy (obj (field _ _ _)) = true

-- `bool(d.get(k))`
abbrev pub get_truthy : String → Fields → Bool
get_truthy k d = elim (get k d) [ none ↦ false | some v ↦ truthy v ]

abbrev pub of_texts : List String → Items
of_texts [] = nil
of_texts (s ∷ r) = cons (text s) (of_texts r)

-- A value that may be `None`.
abbrev pub optional : Option Json → Json
optional none = null
optional (some v) = v

escape : String → String
escape String.[] = ""
escape (String.◌∷◌ c s) =
    let rest = escape s in
    if code c == 34
    then concat ("\\\"" ∷ rest ∷ [])
    else if code c == 92
    then concat ("\\\\" ∷ rest ∷ [])
    else if code c == 10
    then concat ("\\n" ∷ rest ∷ [])
    else if code c == 9
    then concat ("\\t" ∷ rest ∷ [])
    else if code c == 13
    then concat ("\\r" ∷ rest ∷ [])
    else String.◌∷◌ c rest

unfoldable mutual
  unfolding escape

  -- `json.dumps(v)`
  pub dumps : Json → String
  dumps null = "null"
  dumps (bool true) = "true"
  dumps (bool false) = "false"
  dumps (num n) = decimal n
  dumps (float n) = float_text n
  dumps (text s) = concat ("\"" ∷ escape s ∷ "\"" ∷ [])
  dumps (arr nil) = "[]"
  dumps (arr (cons v r)) = concat ("[" ∷ dumps v ∷ dumps_items r ∷ "]" ∷ [])
  dumps (obj end) = "{}"
  dumps (obj (field k v r)) =
      concat ("{\"" ∷ escape k ∷ "\": " ∷ dumps v ∷ dumps_fields r ∷ "}" ∷ [])

  pub dumps_items : Items → String
  dumps_items nil = ""
  dumps_items (cons v r) = concat (", " ∷ dumps v ∷ dumps_items r ∷ [])

  pub dumps_fields : Fields → String
  dumps_fields end = ""
  dumps_fields (field k v r) = concat (", \"" ∷ escape k ∷ "\": " ∷ dumps v ∷ dumps_fields r ∷ [])

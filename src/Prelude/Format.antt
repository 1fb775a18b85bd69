-- ===== src/Prelude/Format.antt =====
-- Python's format specifications for numbers with a fixed number of places, and padding.
use Prim.Native.Nat.{ℕ, zero, suc, ◌-◌, ◌/◌, ◌%◌, ◌^◌}
use Prim.Native.String.{String, ◌++◌}
use mathlib.Core.Bool.{not, ◌&&◌, ◌||◌}
use opspilot_sre_incident_re.Prelude.Tests.{ltb, ◌==◌, if◌then◌else◌}
use opspilot_sre_incident_re.Prelude.Text.{decimal, text_length}

-- So many copies of a text.
abbrev pub copies : ℕ → String → String
copies zero s = ""
copies (suc n) s = s ++ copies n s

-- `f"{s:ns}"`
abbrev pub padded : ℕ → String → String
padded n s = s ++ copies (n - text_length s) " "

-- `f"{v:.pf}"`, of a value in units of the last place that is printed.
unfoldable pub fixed : ℕ → ℕ → String
fixed p n =
    let behind = decimal (n % 10 ^ p) in
    decimal (n / 10 ^ p) ++ ("." ++ (copies (p - text_length behind) "0" ++ behind))

-- So many digits behind the point, without the zeros at the end but for the first digit.
behind_point : ℕ → ℕ → String
unfolding decimal
behind_point zero f = ""
behind_point (suc p) f =
    let shorter = behind_point p (f / 10) in
    let digits = decimal f in
    if p == 0 || not (f % 10 == 0)
    then copies (suc p - text_length digits) "0" ++ digits
    else shorter

-- A number below 10⁻⁴ and above 0, in millionths.
tiny : ℕ → String
unfolding decimal
tiny n =
    if ltb n 10
    then decimal n ++ "e-06"
    else if n % 10 == 0
    then decimal (n / 10) ++ "e-05"
    else decimal (n / 10) ++ ("." ++ (decimal (n % 10) ++ "e-05"))

-- `repr` of a float that is so many millionths, below 10¹⁶.
unfoldable pub float_text : ℕ → String
unfolding behind_point tiny decimal
float_text n =
    if ltb 0 n && ltb n 100
    then tiny n
    else decimal (n / 1000000) ++ ("." ++ behind_point 6 (n % 1000000))

-- ===== src/Examples/Numbers.antt =====
-- The text of floats, as `json.dumps` writes it.
use opspilot_sre_incident_re.Prelude.{◌≡◌, refl, float_text}

tenths : float_text 900000 ≡ "0.9"
unfolding float_text
tenths = refl

whole : float_text 180000000 ≡ "180.0"
unfolding float_text
whole = refl

hundredths : float_text 12050000 ≡ "12.05"
unfolding float_text
hundredths = refl

exponent : float_text 25 ≡ "2.5e-05"
unfolding float_text
exponent = refl

nothing : float_text 0 ≡ "0.0"
unfolding float_text
nothing = refl

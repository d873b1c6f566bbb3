-- ===== src/Tests/Fields.antt =====
-- Log fields, labels and codes at concrete values.
use nyet.Prelude.{
  ◌-◌, ◌*◌, ◌/◌, ◌≤◌, ◌<◌, ◌≡◌, refl, ◌↔◌, true, [], ◌∷◌, arith, Bytes, length, get_or, replicate,
}
use nyet.LogField.{sanitize_log_field}
use nyet.LabelTests.{
  hex_digits, is_hex_telemetry, is_suspicious_label, sum_f_log2, count, tally, l_log2,
}
use nyet.LabelTests.Entropy.{is_suspicious_label-entropy}

-- a tab, an e and a byte that is not printable
abbrev field : Bytes
field = 9 ∷ 101 ∷ 200 ∷ []

field_escaped : sanitize_log_field field 16 ≡ 92 ∷ 116 ∷ 101 ∷ 92 ∷ 120 ∷ 67 ∷ 56 ∷ []
unfolding sanitize_log_field
field_escaped = refl

-- f0 16 times
abbrev hex_label : Bytes
hex_label = replicate 32 102

hex_label_caught : is_hex_telemetry hex_label ≡ true
unfolding is_hex_telemetry hex_digits
hex_label_caught = refl

-- twelve different letters
abbrev mixed : Bytes
mixed = 97 ∷ 98 ∷ 99 ∷ 100 ∷ 101 ∷ 102 ∷ 103 ∷ 104 ∷ 105 ∷ 106 ∷ 107 ∷ 108 ∷ []

mixed_suspicious : is_suspicious_label mixed ≡ true
unfolding is_suspicious_label count sum_f_log2 tally
mixed_suspicious = refl

is_suspicious_label-entropy_example :
    (sum_f_log2 (count [] mixed) / length mixed ≤ get_or l_log2 (length mixed) 0)
    × ((is_suspicious_label mixed ≡ true)
        ↔ (sum_f_log2 (count [] mixed) < (get_or l_log2 (length mixed) 0 - 3670016) * length mixed))
is_suspicious_label-entropy_example = is_suspicious_label-entropy mixed (omega arith) (omega arith)

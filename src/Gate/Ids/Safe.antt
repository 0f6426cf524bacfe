-- ===== src/Gate/Ids/Safe.antt =====
-- The ids that go into logs, tables and responses are safe.
use Prim.Native.String.{◌++◌}
use text.Mathlib.TextLemmas.{cons-append, nil-append}
use lending_bank_gateway.Prelude.{
  ◌+◌, ◌≡◌, refl, ap, ◌∙◌, true, String, str_eq, Option, none, some, arith, Bool-cases, inl, inr,
}
use lending_bank_gateway.Prelude.Text.{strip, text_length}
use lending_bank_gateway.Gate.Ids.{
  Request, all_id_chars, is_correlation_id, sanitize_correlation_id, or_new, identify,
}

text_length-append : (s t : String) → text_length (s ++ t) ≡ text_length s + text_length t
text_length-append String.[] t = omega (arith, ap text_length (nil-append t))
text_length-append (String.◌∷◌ c s) t =
    omega (arith, ap text_length (cons-append c s t), text_length-append s t)

all_id_chars-append :
    (s t : String) → all_id_chars s ≡ true → all_id_chars t ≡ true → all_id_chars (s ++ t) ≡ true
unfolding all_id_chars
all_id_chars-append String.[] t h h' = ap all_id_chars (nil-append t) ∙ h'
all_id_chars-append (String.◌∷◌ c s) t h h' =
    ap all_id_chars (cons-append c s t) ∙ ground (arith, all_id_chars-append s t)

-- the hex digits of a UUID
pub record IsHex (hex : String) : Type 0 where
  pub length : text_length hex ≡ 32
  pub chars : all_id_chars hex ≡ true

dash : all_id_chars "-" ≡ true
unfolding all_id_chars
dash = refl

trc : all_id_chars "trc" ≡ true
unfolding all_id_chars
trc = refl

req : all_id_chars "req" ≡ true
unfolding all_id_chars
req = refl

-- a prefix of three safe characters
new-is_correlation_id :
    (prefix hex : String)
    → text_length prefix ≡ 3
    → all_id_chars prefix ≡ true
    → IsHex hex
    → is_correlation_id (prefix ++ ("-" ++ hex)) ≡ true
new-is_correlation_id prefix hex three safe h =
    let dashed = text_length-append "-" hex in
    let whole = text_length-append prefix ("-" ++ hex) in
    let chars =
      all_id_chars-append prefix ("-" ++ hex) safe (all_id_chars-append "-" hex dash h.chars) in
    ground (arith, h.length)

or_new-is_correlation_id :
    (prefix hex hex' : String) (raw : Option String)
    → text_length prefix ≡ 3
    → all_id_chars prefix ≡ true
    → IsHex hex
    → IsHex hex'
    → is_correlation_id (or_new prefix hex' (sanitize_correlation_id prefix hex raw)) ≡ true
unfolding sanitize_correlation_id
or_new-is_correlation_id prefix hex hex' none three safe h h' =
    new-is_correlation_id prefix hex' three safe h'
or_new-is_correlation_id prefix hex hex' (some raw) three safe h h' =
    elim (Bool-cases (str_eq (strip raw) "")) [
      | inl blank ↦ rw blank (new-is_correlation_id prefix hex' three safe h')
      | inr full ↦ elim (Bool-cases (is_correlation_id raw)) [
        | inl fits ↦ rw (full, fits) fits
        | inr other ↦ rw (full, other) (new-is_correlation_id prefix hex three safe h)
      ]
    ]

-- The trace id and the request id that are echoed hold at most 64 characters, all of them letters,
-- digits, dots, dashes, colons or underscores, whatever the request says; the request id that keys
-- the tables is the request's own, untouched.
pub identify-is_correlation_id :
    (hex hex' hex'' hex''' : String) (r : Request)
    → IsHex hex
    → IsHex hex'
    → IsHex hex''
    → IsHex hex'''
    → (is_correlation_id (identify hex hex' hex'' hex''' r).trace_id ≡ true)
      × (is_correlation_id (identify hex hex' hex'' hex''' r).safe_request_id ≡ true)
      × ((identify hex hex' hex'' hex''' r).request_id ≡ r.request_id)
unfolding identify
identify-is_correlation_id hex hex' hex'' hex''' r h h' h'' h''' = (
  or_new-is_correlation_id "trc" hex hex' r.trace_id refl trc h h',
  or_new-is_correlation_id "req" hex'' hex''' r.request_id refl req h'' h''',
  refl,
)

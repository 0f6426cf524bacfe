-- ===== src/Domain/BizSeq.antt =====
-- app/domain/biz_seq.py: the storage-safety check of a business sequence number, and
-- `urllib.parse.quote` with `safe=""`.
use Prim.Native.Char.{Char, code}
use Prim.Native.String.{◌++◌, count}
use text.Mathlib.TextLemmas.{nil-append, cons-append}
use lending_bank_gateway.Prelude.{
  ℕ, ◌+◌, ◌/◌, ◌%◌, ◌≡◌, refl, Bool, true, not, ◌&&◌, ◌||◌, String, str_eq, List, [], ◌∷◌, arith,
  ltb, leb, ◌==◌, if◌then◌else◌,
}

abbrev max_len : ℕ
max_len = 32

-- `[A-Za-z0-9_-]`
abbrev is_safe : ℕ → Bool
is_safe c =
    (leb b'A' c && leb c b'Z')
    || (leb b'a' c && leb c b'z')
    || (leb b'0' c && leb c b'9')
    || c == b'_'
    || c == b'-'

-- `_SAFE.fullmatch` on a text that is not empty
unfoldable pub all_safe : String → Bool
all_safe String.[] = true
all_safe (String.◌∷◌ c s) = is_safe (code c) && all_safe s

-- `validate_biz_seq_no`: false where it raises `ValueError`
unfoldable pub validate_biz_seq_no : String → Bool
validate_biz_seq_no s = not (str_eq s "" || ltb max_len (count s) || not (all_safe s))

-- the characters that `quote` never escapes
abbrev is_unreserved : ℕ → Bool
is_unreserved c = is_safe c || c == b'.' || c == b'~'

abbrev hex_digits : List (ℕ × String)
hex_digits =
    (0, "0")
    ∷ (1, "1")
    ∷ (2, "2")
    ∷ (3, "3")
    ∷ (4, "4")
    ∷ (5, "5")
    ∷ (6, "6")
    ∷ (7, "7")
    ∷ (8, "8")
    ∷ (9, "9")
    ∷ (10, "A")
    ∷ (11, "B")
    ∷ (12, "C")
    ∷ (13, "D")
    ∷ (14, "E")
    ∷ (15, "F")
    ∷ []

digit : List (ℕ × String) → ℕ → String
digit [] n = ""
digit ((m, d) ∷ more) n = if m == n then d else digit more n

-- one byte as `%XX`
escape : ℕ → String
unfolding digit
escape b = "%" ++ digit hex_digits (b / 16) ++ digit hex_digits (b % 16)

-- the bytes of a character in UTF-8, each escaped
escape_char : ℕ → String
unfolding escape
escape_char c =
    if ltb c 0x80
    then escape c
    else if ltb c 0x800
    then escape (0xc0 + c / 64) ++ escape (0x80 + c % 64)
    else if ltb c 0x10000
    then escape (0xe0 + c / 4096) ++ escape (0x80 + c / 64 % 64) ++ escape (0x80 + c % 64)
    else escape (0xf0 + c / 262144)
      ++ escape (0x80 + c / 4096 % 64)
      ++ escape (0x80 + c / 64 % 64)
      ++ escape (0x80 + c % 64)

quote_char : Char → String
unfolding escape_char
quote_char c = if is_unreserved (code c) then String.◌∷◌ c String.[] else escape_char (code c)

unfoldable pub quote : String → String
unfolding quote_char
quote String.[] = ""
quote (String.◌∷◌ c s) = quote_char c ++ quote s

quote-space : quote "a b/é" ≡ "a%20b%2F%C3%A9"
unfolding quote
quote-space = refl

quote_char-safe : (c : Char) → is_safe (code c) ≡ true → quote_char c ≡ String.◌∷◌ c String.[]
unfolding quote_char
quote_char-safe c h = rw h

quote-cons : (c : Char) (s : String) → quote (String.◌∷◌ c s) ≡ quote_char c ++ quote s
unfolding quote
quote-cons c s = refl

quote-all_safe : (s : String) → all_safe s ≡ true → quote s ≡ s
quote-all_safe String.[] h = unfold quote in refl
quote-all_safe (String.◌∷◌ c s) h =
    rw (quote-cons, quote_char-safe c (unfold all_safe in ground arith))
      (rw (quote-all_safe s (unfold all_safe in ground arith), cons-append, nil-append))

-- A number that passes the check goes into a URL as it is.
pub quote-validate_biz_seq_no : (s : String) → validate_biz_seq_no s ≡ true → quote s ≡ s
quote-validate_biz_seq_no s h = quote-all_safe s (unfold validate_biz_seq_no in ground arith)

-- ===== src/Json/Value.antt =====
-- JSON documents with their nesting, as Python reads them. A number, a list and an object come with
-- the text that `str()` makes of them.
use Prim.Native.Char.{code}
use lending_bank_gateway.Prelude.{
  ℕ, zero, suc, ◌+◌, ◌*◌, ◌-◌, ◌==◌, leb, Bool, true, false, ◌&&◌, String, str_eq, Option, none,
  some, if◌then◌else◌,
}
use lending_bank_gateway.Prelude.Text.{strip}

-- `negsuc n` is -(n + 1)
pub data ℤ : Type 0 where
  pos : ℕ → ℤ
  negsuc : ℕ → ℤ

-- `number` is a float: its `str()`, its `int()` if it is finite, and whether it is not zero
mutual
  pub data Value : Type 0 where
    null : Value
    boolean : Bool → Value
    integer : String → ℤ → Value
    number : String → Option ℤ → Bool → Value
    text : String → Value
    array : String → Items → Value
    object : String → Fields → Value

  pub data Items : Type 0 where
    nil : Items
    cons : Value → Items → Items

  pub data Fields : Type 0 where
    end : Fields
    field : String → Value → Fields → Fields

-- `d.get(key)`
unfoldable pub get : String → Fields → Option Value
get key end = none
get key (field k v d) = if str_eq k key then some v else get key d

abbrev pub str_of : Value → String
str_of null = "None"
str_of (boolean true) = "True"
str_of (boolean false) = "False"
str_of (integer s n) = s
str_of (number s n b) = s
str_of (text s) = s
str_of (array s xs) = s
str_of (object s d) = s

-- `str(d.get(key))`
abbrev pub str_of_option : Option Value → String
str_of_option none = "None"
str_of_option (some v) = str_of v

abbrev pub is_zero : ℤ → Bool
is_zero (pos zero) = true
is_zero (pos (suc n)) = false
is_zero (negsuc n) = false

abbrev pub is_nil : Items → Bool
is_nil nil = true
is_nil (cons v xs) = false

abbrev pub is_end : Fields → Bool
is_end end = true
is_end (field k v d) = false

-- `if d.get(key)`
abbrev pub is_falsy : Option Value → Bool
is_falsy none = true
is_falsy (some null) = true
is_falsy (some (boolean true)) = false
is_falsy (some (boolean false)) = true
is_falsy (some (integer s n)) = is_zero n
is_falsy (some (number s n true)) = false
is_falsy (some (number s n false)) = true
is_falsy (some (text s)) = str_eq s ""
is_falsy (some (array s xs)) = is_nil xs
is_falsy (some (object s d)) = is_end d

-- the digits of a numeral with single underscores between them; `ready` says that the last
-- character was a digit
digits : String → Bool → ℕ → Option ℕ
digits String.[] ready acc = if ready then some acc else none
digits (String.◌∷◌ c s) ready acc =
    let c' = code c in
    let is_digit = leb b'0' c' && leb c' b'9' in
    let more = digits s is_digit (if is_digit then acc * 10 + (c' - b'0') else acc) in
    if is_digit then more else if c' == b'_' && ready then more else none

abbrev negative : ℕ → ℤ
negative zero = pos 0
negative (suc n) = negsuc n

abbrev option_int : (ℕ → ℤ) → Option ℕ → Option ℤ
option_int f none = none
option_int f (some n) = some (f n)

signed_int : String → Option ℤ
unfolding digits
signed_int String.[] = none
signed_int (String.◌∷◌ c t) =
    let c' = code c in
    if c' == b'-'
    then option_int negative (digits t false 0)
    else if c' == b'+'
    then option_int pos (digits t false 0)
    else option_int pos (digits (String.◌∷◌ c t) false 0)

-- `int(s)` of a text, for ASCII digits
unfoldable pub int_of_text : String → Option ℤ
unfolding signed_int
int_of_text s = signed_int (strip s)

abbrev int_of : Option Value → Option ℤ
int_of none = none
int_of (some null) = none
int_of (some (boolean true)) = some (pos 1)
int_of (some (boolean false)) = some (pos 0)
int_of (some (integer s n)) = some n
int_of (some (number s n b)) = n
int_of (some (text s)) = int_of_text s
int_of (some (array s xs)) = none
int_of (some (object s d)) = none

-- `int(d.get(key) or 0)`; `none` where it raises
unfoldable pub int_or_zero : Option Value → Option ℤ
unfolding int_of_text
int_or_zero v = if is_falsy v then some (pos 0) else int_of v

-- `v if isinstance(v, str) else None`
abbrev pub if_text : Option Value → Option String
if_text none = none
if_text (some null) = none
if_text (some (boolean b)) = none
if_text (some (integer s n)) = none
if_text (some (number s n b)) = none
if_text (some (text s)) = some s
if_text (some (array s xs)) = none
if_text (some (object s d)) = none

-- `d.get(key)` where that is not None
abbrev pub present : Option Value → Option Value
present none = none
present (some null) = none
present (some (boolean b)) = some (boolean b)
present (some (integer s n)) = some (integer s n)
present (some (number s n b)) = some (number s n b)
present (some (text s)) = some (text s)
present (some (array s xs)) = some (array s xs)
present (some (object s d)) = some (object s d)

-- `v == s` for a text s
abbrev pub is_text : String → Value → Bool
is_text s null = false
is_text s (boolean b) = false
is_text s (integer t n) = false
is_text s (number t n b) = false
is_text s (text t) = str_eq t s
is_text s (array t xs) = false
is_text s (object t d) = false

-- ===== src/Json.antt =====
-- JSON objects as the services read them: `d.get(key)`, `str(v)`, `str(v or "")`, `isinstance(v, str)`.
pub mod Value
use lending_bank_gateway.Prelude.{
  Bool, true, false, String, str_eq, Option, none, some, List, [], ◌∷◌, if◌then◌else◌,
}

-- A value by what the services see of it: a number, a list or an object shows its `str()` and its
-- truth value.
pub data Json : Type 0 where
  null : Json
  boolean : Bool → Json
  text : String → Json
  other : String → Bool → Json

abbrev pub Payload : Type 0
Payload = List (String × Json)

-- `d.get(key)`
unfoldable pub get : String → Payload → Option Json
get key [] = none
get key ((k, v) ∷ d) = if str_eq k key then some v else get key d

unfoldable pub to_str : Json → String
to_str null = "None"
to_str (boolean true) = "True"
to_str (boolean false) = "False"
to_str (text s) = s
to_str (other s _) = s

-- `str(d.get(key, ""))`
unfoldable pub str_get : String → Payload → String
unfolding to_str
str_get key d = elim (get key d) [ none ↦ "" | some v ↦ to_str v ]

abbrev truthy_str : Option Json → String
truthy_str none = ""
truthy_str (some null) = ""
truthy_str (some (boolean true)) = "True"
truthy_str (some (boolean false)) = ""
truthy_str (some (text s)) = s
truthy_str (some (other s true)) = s
truthy_str (some (other s false)) = ""

-- `str(d.get(key) or "")`
unfoldable pub str_or_empty : String → Payload → String
str_or_empty key d = truthy_str (get key d)

-- `str(d.get(key) or "") or None`
unfoldable pub str_or_none : String → Payload → Option String
unfolding str_or_empty
str_or_none key d = let s = str_or_empty key d in if str_eq s "" then none else some s

abbrev as_str : Option Json → Option String
as_str none = none
as_str (some null) = none
as_str (some (boolean _)) = none
as_str (some (text s)) = some s
as_str (some (other _ _)) = none

-- `d.get(key)` where it `isinstance(…, str)`
unfoldable pub text_get : String → Payload → Option String
text_get key d = as_str (get key d)

abbrev is_true : Option Json → Bool
is_true none = false
is_true (some null) = false
is_true (some (boolean b)) = b
is_true (some (text _)) = false
is_true (some (other _ _)) = false

-- `d.get(key) is True`
unfoldable pub flag_get : String → Payload → Bool
flag_get key d = is_true (get key d)

abbrev is_truthy : Option Json → Bool
is_truthy none = false
is_truthy (some null) = false
is_truthy (some (boolean b)) = b
is_truthy (some (text s)) = if str_eq s "" then false else true
is_truthy (some (other _ b)) = b

-- the truth value of `d.get(key)`
unfoldable pub truthy : String → Payload → Bool
truthy key d = is_truthy (get key d)

-- ===== src/Gate/Tokens.antt =====
-- `parse_caller_tokens` and `_bearer_credential` of app/core/s2s.py.
pub mod Print
use Prim.Native.Char.{Char, code}
use lending_bank_gateway.Prelude.{
  ℕ, ◌==◌, Bool, true, false, not, ◌&&◌, String, str_eq, Option, none, some, List, [], ◌∷◌, ◌++◌,
  find, update_where, is_some, if◌then◌else◌,
}
use lending_bank_gateway.Prelude.Text.{strip, upper}

abbrev pub comma : ℕ
comma = b','

abbrev pub colon : ℕ
colon = b':'

abbrev space : ℕ
space = b' '

abbrev pub with_first : Char → List String → List String
with_first c [] = String.◌∷◌ c String.[] ∷ []
with_first c (t ∷ ts) = String.◌∷◌ c t ∷ ts

-- `s.split(…)` at one character
unfoldable pub split : ℕ → String → List String
split sep String.[] = "" ∷ []
split sep (String.◌∷◌ c s) =
    let rest = split sep s in if code c == sep then "" ∷ rest else with_first c rest

abbrev pub grow : Char → Option (String × String) → Option (String × String)
grow c none = none
grow c (some (a, b)) = some (String.◌∷◌ c a, b)

-- `s.partition(…)` at one character, where it occurs
unfoldable pub partition : ℕ → String → Option (String × String)
partition sep String.[] = none
partition sep (String.◌∷◌ c s) =
    let rest = partition sep s in if code c == sep then some ("", s) else grow c rest

abbrev pub Tokens : Type 0
Tokens = List (String × String)

abbrev pub has_name : String → String × String → Bool
has_name name e = str_eq e.0 name

-- `tokens[name] = tok`
abbrev pub set : String → String → Tokens → Tokens
set name tok ts =
    if is_some (find (has_name name) ts)
    then update_where (has_name name) (λ e. (name, tok)) ts
    else ts ++ (name, tok) ∷ []

abbrev pub add_stripped : String → String → Tokens → Tokens
add_stripped name tok ts =
    if not (str_eq name "") && not (str_eq tok "") then set name tok ts else ts

abbrev pub add_parts : Option (String × String) → Tokens → Tokens
add_parts none ts = ts
add_parts (some (name, tok)) ts = add_stripped (strip name) (strip tok) ts

-- the body of the loop
unfoldable pub add_pair : String → Tokens → Tokens
unfolding strip partition
add_pair pair ts = add_parts (partition colon pair) ts

unfoldable pub add_pairs : List String → Tokens → Tokens
unfolding add_pair
add_pairs [] ts = ts
add_pairs (p ∷ ps) ts = add_pairs ps (add_pair p ts)

abbrev if_any : Tokens → Option Tokens
if_any [] = none
if_any (e ∷ ts) = some (e ∷ ts)

unfoldable pub parse_caller_tokens : String → Option Tokens
unfolding split add_pairs
parse_caller_tokens raw = if_any (add_pairs (split comma raw) [])

-- `scheme.lower() == "bearer"`: no character beyond ASCII has one of these letters as its capital or
-- its small letter
abbrev if_bearer : Option (String × String) → String
if_bearer none = ""
if_bearer (some (scheme, credential)) =
    if str_eq (upper scheme) "BEARER" then strip credential else ""

-- `_bearer_credential`; without a space the credential is empty
unfoldable pub bearer_credential : String → String
unfolding partition strip upper
bearer_credential header = if_bearer (partition space header)

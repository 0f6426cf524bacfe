-- ===== src/Prelude/Text.antt =====
-- `str.upper`, `str.strip`, `len` and `s[:n]`, over the characters of a text.
-- `upper` is exact wherever its result is ASCII. A character whose capital holds a character
-- beyond ASCII is left alone: no text that holds one equals an ASCII word, before or after.
use Prim.Native.Nat.{ℕ, zero, suc, ◌≤◌}
use Prim.Native.Char.{Char, code}
use Prim.Native.String.{String, ◌++◌}
use mathlib.Core.Path.{◌≡◌, refl, sym, ap, ap₂, ◌∙◌}
use mathlib.Core.Logic.{◌⊎◌, inl, inr}
use mathlib.Core.Bool.{Bool, true, ◌&&◌, ◌||◌}
use mathlib.Core.List.{List, [], ◌∷◌}
use native.Mathlib.Omega.{arith}
use text.Mathlib.Text.{◌==◌ as str_eq}
use text.Mathlib.TextLemmas.{append-nil, append_assoc, cons-append, nil-append}
use text.Mathlib.TextEquality.{eq_iff}
use lending_bank_gateway.Prelude.Tests.{leb, ◌==◌, if◌then◌else◌, Bool-cases}

-- Every character with an ASCII capital, and that capital.
abbrev capitals : List (ℕ × String)
capitals =
    (b'a', "A")
    ∷ (b'b', "B")
    ∷ (b'c', "C")
    ∷ (b'd', "D")
    ∷ (b'e', "E")
    ∷ (b'f', "F")
    ∷ (b'g', "G")
    ∷ (b'h', "H")
    ∷ (b'i', "I")
    ∷ (b'j', "J")
    ∷ (b'k', "K")
    ∷ (b'l', "L")
    ∷ (b'm', "M")
    ∷ (b'n', "N")
    ∷ (b'o', "O")
    ∷ (b'p', "P")
    ∷ (b'q', "Q")
    ∷ (b'r', "R")
    ∷ (b's', "S")
    ∷ (b't', "T")
    ∷ (b'u', "U")
    ∷ (b'v', "V")
    ∷ (b'w', "W")
    ∷ (b'x', "X")
    ∷ (b'y', "Y")
    ∷ (b'z', "Z")
    ∷ (0xdf, "SS")
    ∷ (0x131, "I")
    ∷ (0x17f, "S")
    ∷ (0xfb00, "FF")
    ∷ (0xfb01, "FI")
    ∷ (0xfb02, "FL")
    ∷ (0xfb03, "FFI")
    ∷ (0xfb04, "FFL")
    ∷ (0xfb05, "ST")
    ∷ (0xfb06, "ST")
    ∷ []

capital : List (ℕ × String) → Char → String
capital [] c = String.◌∷◌ c String.[]
capital ((n, u) ∷ more) c = if n == code c then u else capital more c

unfoldable pub upper : String → String
unfolding capital
upper String.[] = ""
upper (String.◌∷◌ c s) = capital capitals c ++ upper s

-- `str.isspace` of one character
abbrev is_space : ℕ → Bool
is_space c =
    (leb 9 c && leb c 13)
    || (leb 28 c && leb c 32)
    || c == 0x85
    || c == 0xa0
    || c == 0x1680
    || (leb 0x2000 c && leb c 0x200a)
    || c == 0x2028
    || c == 0x2029
    || c == 0x202f
    || c == 0x205f
    || c == 0x3000

lstrip : String → String
lstrip String.[] = ""
lstrip (String.◌∷◌ c s) = if is_space (code c) then lstrip s else String.◌∷◌ c s

rstrip : String → String
rstrip String.[] = ""
rstrip (String.◌∷◌ c s) =
    let rest = rstrip s in if is_space (code c) && str_eq rest "" then "" else String.◌∷◌ c rest

unfoldable pub strip : String → String
unfolding lstrip rstrip
strip s = lstrip (rstrip s)

-- `s[:n]`
unfoldable pub take : ℕ → String → String
take zero s = ""
take (suc n) String.[] = ""
take (suc n) (String.◌∷◌ c s) = String.◌∷◌ c (take n s)

-- `len(s)`
abbrev pub text_length : String → ℕ
text_length String.[] = 0
text_length (String.◌∷◌ c s) = suc (text_length s)

pub text_length-take : (n : ℕ) (s : String) → text_length (take n s) ≤ n
unfolding take
text_length-take zero s = omega arith
text_length-take (suc n) String.[] = omega arith
text_length-take (suc n) (String.◌∷◌ c s) = omega (arith, text_length-take n s)

upper_char : Char → String
upper_char c = capital capitals c

upper_cons : (c : Char) (s : String) → upper (String.◌∷◌ c s) ≡ upper_char c ++ upper s
unfolding upper upper_char
upper_cons c s = refl

upper-append : (s t : String) → upper (s ++ t) ≡ upper s ++ upper t
upper-append String.[] t = unfold upper in ap upper (nil-append t) ∙ sym (nil-append (upper t))
upper-append (String.◌∷◌ c s) t =
    ap upper (cons-append c s t)
    ∙ upper_cons c (s ++ t)
    ∙ ap (λ r. upper_char c ++ r) (upper-append s t)
    ∙ sym (append_assoc (upper_char c) (upper s) (upper t))
    ∙ ap (λ r. r ++ upper t) (sym (upper_cons c s))

-- Every listed capital is its own capital.
all_fixed : List (ℕ × String) → Bool
all_fixed [] = true
all_fixed ((n, u) ∷ more) = str_eq (upper u) u && all_fixed more

all_fixed-capitals : all_fixed capitals ≡ true
unfolding all_fixed upper
all_fixed-capitals = refl

capital-cases :
    (table : List (ℕ × String)) (c : Char)
    → all_fixed table ≡ true
    → (capital table c ≡ String.◌∷◌ c String.[]) ⊎ (upper (capital table c) ≡ capital table c)
unfolding capital all_fixed
capital-cases [] c h = inl refl
capital-cases ((n, u) ∷ more) c h = elim (Bool-cases (n == code c)) [
  | inl hit ↦ rw hit (inr ((eq_iff (upper u) u).0 (ground arith)))
  | inr miss ↦ rw miss (capital-cases more c (ground arith))
]

upper-upper_char : (c : Char) → upper (upper_char c) ≡ upper_char c
unfolding upper_char
upper-upper_char c = elim (capital-cases capitals c all_fixed-capitals) [
  | inl same ↦
      ap upper same ∙ upper_cons c String.[] ∙ unfold upper in append-nil (capital capitals c)
  | inr fixed ↦ fixed
]

pub upper-upper : (s : String) → upper (upper s) ≡ upper s
upper-upper String.[] = unfold upper in refl
upper-upper (String.◌∷◌ c s) =
    ap upper (upper_cons c s)
    ∙ upper-append (upper_char c) (upper s)
    ∙ ap₂ ◌++◌ (upper-upper_char c) (upper-upper s)
    ∙ sym (upper_cons c s)

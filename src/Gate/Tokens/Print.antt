-- ===== src/Gate/Tokens/Print.antt =====
-- The list of tokens, written as the configuration has it, is read back.
use Prim.Native.Char.{Char, code}
use text.Mathlib.TextLemmas.{cons-append, nil-append}
use mathlib.Core.List.{append-nil, append_assoc}
use lending_bank_gateway.Prelude.{
  ℕ, ◌==◌, ◌≡◌, refl, sym, ap, ◌∙◌, false, String, str_eq, none, some, [], ◌∷◌, ◌++◌, find, map,
  All, subst, arith,
}
use lending_bank_gateway.Prelude.Text.{strip}
use lending_bank_gateway.Gate.Tokens.{
  comma, colon, split, partition, Tokens, has_name, add_parts, add_pair, add_pairs,
  parse_caller_tokens,
}

-- the character does not occur
abbrev pub Lacks : ℕ → String → Type 0
Lacks sep String.[] = Unit
Lacks sep (String.◌∷◌ c s) = ((code c == sep) ≡ false) × Lacks sep s

-- a text, a separator, and another text
abbrev separated : Char → String → String → String
separated sep s t = Prim.Native.String.◌++◌ s (String.◌∷◌ sep t)

separated-cons :
    (sep c : Char) (s t : String)
    → separated sep (String.◌∷◌ c s) t ≡ String.◌∷◌ c (separated sep s t)
separated-cons sep c s t = cons-append c s (String.◌∷◌ sep t)

partition-separated :
    (sep : Char) (s t : String)
    → Lacks (code sep) s
    → partition (code sep) (separated sep s t) ≡ some (s, t)
unfolding partition
partition-separated sep String.[] t l =
    ap (partition (code sep)) (nil-append (String.◌∷◌ sep t)) ∙ ground arith
partition-separated sep (String.◌∷◌ c s) t l =
    ap (partition (code sep)) (separated-cons sep c s t)
    ∙ rw (l.0, partition-separated sep s t l.1) refl

split-Lacks : (sep : ℕ) (s : String) → Lacks sep s → split sep s ≡ s ∷ []
unfolding split
split-Lacks sep String.[] l = refl
split-Lacks sep (String.◌∷◌ c s) l = rw (l.0, split-Lacks sep s l.1) refl

split-separated :
    (sep : Char) (s t : String)
    → Lacks (code sep) s
    → split (code sep) (separated sep s t) ≡ s ∷ split (code sep) t
unfolding split
split-separated sep String.[] t l =
    ap (split (code sep)) (nil-append (String.◌∷◌ sep t)) ∙ ground arith
split-separated sep (String.◌∷◌ c s) t l =
    ap (split (code sep)) (separated-cons sep c s t) ∙ rw (l.0, split-separated sep s t l.1) refl

-- a name or a token that the list can hold
abbrev pub IsPlain : String → Type 0
IsPlain s = ((str_eq s "") ≡ false) × (strip s ≡ s) × Lacks comma s

abbrev pub IsEntry : String × String → Type 0
IsEntry (name, tok) = IsPlain name × IsPlain tok × Lacks colon name

-- no name is in the list before it, or among those of `before`
abbrev pub Fresh : Tokens → Tokens → Type 0
Fresh before [] = Unit
Fresh before ((name, tok) ∷ ts) =
    (find (has_name name) before ≡ none) × Fresh (before ++ (name, tok) ∷ []) ts

abbrev pub entry : String × String → String
entry (name, tok) = separated ":" name tok

-- the configuration's text
unfoldable pub print : String × String → Tokens → String
print e [] = entry e
print e (e' ∷ ts) = separated "," (entry e) (print e' ts)

add_pair-entry :
    (name tok : String) (ts : Tokens)
    → IsEntry (name, tok)
    → find (has_name name) ts ≡ none
    → add_pair (entry (name, tok)) ts ≡ ts ++ (name, tok) ∷ []
unfolding add_pair
add_pair-entry name tok ts (plain, plain', lacks) fresh =
    ap (λ p. add_parts p ts) (partition-separated ":" name tok lacks)
    ∙ rw (plain.1, plain'.1, plain.0, plain'.0, fresh) refl

Lacks-separated :
    (sep : ℕ) (c : Char) (s t : String)
    → Lacks sep s
    → (code c == sep) ≡ false
    → Lacks sep t
    → Lacks sep (separated c s t)
Lacks-separated sep c String.[] t ls lc lt =
    subst (Lacks sep) (sym (nil-append (String.◌∷◌ c t))) (lc, lt)
Lacks-separated sep c (String.◌∷◌ d s) t ls lc lt =
    subst (Lacks sep) (sym (separated-cons c d s t)) (ls.0, Lacks-separated sep c s t ls.1 lc lt)

Lacks-entry : (e : String × String) → IsEntry e → Lacks comma (entry e)
Lacks-entry (name, tok) (plain, plain', lacks) =
    Lacks-separated comma ":" name tok plain.2 refl plain'.2

split-print :
    (e : String × String) (ts : Tokens)
    → IsEntry e
    → All IsEntry ts
    → split comma (print e ts) ≡ map entry (e ∷ ts)
unfolding print
split-print e [] h hs = split-Lacks comma (entry e) (Lacks-entry e h)
split-print e (e' ∷ ts) h (h', hs) =
    split-separated "," (entry e) (print e' ts) (Lacks-entry e h)
    ∙ ap (λ ps. entry e ∷ ps) (split-print e' ts h' hs)

add_pairs-entries :
    (ts before : Tokens)
    → All IsEntry ts
    → Fresh before ts
    → add_pairs (map entry ts) before ≡ before ++ ts
unfolding add_pairs
add_pairs-entries [] before h fresh = sym (append-nil before)
add_pairs-entries ((name, tok) ∷ ts) before (h, hs) (new, fresh) =
    ap (add_pairs (map entry ts)) (add_pair-entry name tok before h new)
    ∙ add_pairs-entries ts (before ++ (name, tok) ∷ []) hs fresh
    ∙ append_assoc before ((name, tok) ∷ []) ts

-- Tokens whose names and tokens are not empty, hold no comma and no space around them, whose names
-- hold no colon, and whose names are all different, are read back from their text as they are.
pub parse_caller_tokens-print :
    (e : String × String) (ts : Tokens)
    → All IsEntry (e ∷ ts)
    → Fresh [] (e ∷ ts)
    → parse_caller_tokens (print e ts) ≡ some (e ∷ ts)
unfolding parse_caller_tokens
parse_caller_tokens-print e ts (h, hs) fresh =
    let read =
      ap (λ ps. add_pairs ps []) (split-print e ts h hs)
      ∙ add_pairs-entries (e ∷ ts) [] (h, hs) fresh in
    rw read refl

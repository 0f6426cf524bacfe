-- ===== src/WedapDelivery/ImportResult/Lines.antt =====
-- What recon is sent of a result file.
use lending_bank_gateway.Prelude.{
  ◌≤◌, ◌≡◌, ◌⊎◌, inl, inr, subst, true, false, String, str_eq, eq_iff, Option, none, some, List, [],
  ◌∷◌, All, one_of, arith, Bool-cases, Option-cases,
}
use lending_bank_gateway.Prelude.Text.{text_length, text_length-take}
use lending_bank_gateway.Json.Value.{
  Value, Items, Fields, null, boolean, integer, number, text, array, object, nil, cons, get,
  is_falsy, if_text,
}
use lending_bank_gateway.WedapDelivery.ImportResult.{
  BadLine, ImportResult, LineResult, bad_line, is_ingested, collect_bad, bad_lines_of, build_result,
  parse_result, if_int, cut, line_result, valid_line_status, recordable, line_results,
}

abbrev pub Fits : Option String → Type 0
Fits none = Unit
Fits (some code) = text_length code ≤ 64

-- what recon's contract asks of a line, beside the types of its fields
pub record IsLineResult (l : LineResult) : Type 0 where
  pub status :
      (l.line_status ≡ "DUPLICATE")
      ⊎ (l.line_status ≡ "LINE_PARSE_ERROR")
      ⊎ (l.line_status ≡ "CONTRACT_INVALID")
  pub code : Fits l.error_code

abbrev Bad : BadLine → Type 0
Bad b = str_eq b.line_status "INGESTED" ≡ false

collect_bad-Bad :
    (items : Items) (lines : List BadLine) → collect_bad items ≡ some lines → All Bad lines
unfolding collect_bad
collect_bad-Bad nil [] e = tt
collect_bad-Bad nil (b ∷ bs) e = cc
collect_bad-Bad (cons (object s d) items) lines e = elim (Option-cases (collect_bad items)) [
  | inl none_left ↦ ground arith
  | inr (rest, found) ↦ elim (Bool-cases (is_ingested d)) [
    | inl good ↦
        let same : rest ≡ lines = ground arith in
        subst (λ x. All Bad x) same (collect_bad-Bad items rest found)
    | inr bad ↦
        let same : bad_line d ∷ rest ≡ lines = ground arith in
        subst (λ x. All Bad x) same (bad, collect_bad-Bad items rest found)
  ]
]
collect_bad-Bad (cons null items) lines e = cc
collect_bad-Bad (cons (boolean b) items) lines e = cc
collect_bad-Bad (cons (integer s n) items) lines e = cc
collect_bad-Bad (cons (number s n b) items) lines e = cc
collect_bad-Bad (cons (text s) items) lines e = cc
collect_bad-Bad (cons (array s xs) items) lines e = cc

cut-Fits : (o : Option String) → Fits (cut 64 o)
cut-Fits none = tt
cut-Fits (some s) = text_length-take 64 s

known :
    (b : BadLine)
    → Bad b
    → one_of b.line_status valid_line_status ≡ true
    → (b.line_status ≡ "DUPLICATE")
      ⊎ (b.line_status ≡ "LINE_PARSE_ERROR")
      ⊎ (b.line_status ≡ "CONTRACT_INVALID")
known b bad valid = ground (
  arith,
  eq_iff b.line_status "DUPLICATE",
  eq_iff b.line_status "LINE_PARSE_ERROR",
  eq_iff b.line_status "CONTRACT_INVALID",
)

recordable-IsLineResult :
    (b : BadLine) (l : LineResult) → Bad b → recordable b ≡ some l → IsLineResult l
unfolding recordable
recordable-IsLineResult b l bad e = elim (Option-cases (if_int b.line_no)) [
  | inl no_number ↦ ground arith
  | inr (n, is_int) ↦
      let same : line_result b n ≡ l = ground arith in
      subst IsLineResult same
        (record { status = known b bad (ground arith); code = cut-Fits (if_text b.error_code) })
]

line_results-IsLineResult : (bs : List BadLine) → All Bad bs → All IsLineResult (line_results bs)
unfolding line_results
line_results-IsLineResult [] h = tt
line_results-IsLineResult (b ∷ bs) (bad, h) = elim (Option-cases (recordable b)) [
  | inl skipped ↦ rw skipped (line_results-IsLineResult bs h)
  | inr (l, sent) ↦ rw sent (recordable-IsLineResult b l bad sent, line_results-IsLineResult bs h)
]

bad_lines_of-Bad :
    (v : Option Value) (lines : List BadLine) → bad_lines_of v ≡ some lines → All Bad lines
unfolding bad_lines_of
bad_lines_of-Bad (some (array s items)) lines e =
    elim (Bool-cases (is_falsy (some (array s items)))) [
      | inl empty ↦ let same : [] ≡ lines = ground arith in subst (λ x. All Bad x) same tt
      | inr full ↦ collect_bad-Bad items lines (ground arith)
    ]
bad_lines_of-Bad v lines e = let same : [] ≡ lines = ground arith in subst (λ x. All Bad x) same tt

build_result-lines :
    (body : Fields) (lines : List BadLine) (r : ImportResult)
    → build_result body lines ≡ some r
    → lines ≡ r.bad_lines
unfolding build_result
build_result-lines body lines r e = ground arith

-- Every line that recon is sent of a result file is one that wedap did not ingest, and has a status
-- that recon knows and an error code of at most 64 characters, whatever the file says.
pub parse_result-IsLineResult :
    (file : Option Value) (r : ImportResult)
    → parse_result file ≡ some r
    → All IsLineResult (line_results r.bad_lines)
unfolding parse_result
parse_result-IsLineResult (some (object s body)) r e =
    elim (Option-cases (bad_lines_of (get "lineResults" body))) [
      | inl raises ↦ ground arith
      | inr (lines, found) ↦
          let same : lines ≡ r.bad_lines = build_result-lines body lines r (ground arith) in
          subst (λ x. All IsLineResult (line_results x)) same
            (line_results-IsLineResult lines
              (bad_lines_of-Bad (get "lineResults" body) lines found))
    ]
parse_result-IsLineResult none r e = cc
parse_result-IsLineResult (some null) r e = cc
parse_result-IsLineResult (some (boolean b)) r e = cc
parse_result-IsLineResult (some (integer s n)) r e = cc
parse_result-IsLineResult (some (number s n b)) r e = cc
parse_result-IsLineResult (some (text s)) r e = cc
parse_result-IsLineResult (some (array s xs)) r e = cc

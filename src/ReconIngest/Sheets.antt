-- ===== src/ReconIngest/Sheets.antt =====
-- The three sheets of a workbook, and the rows that they give.
use lending_bank_gateway.Prelude.{
  Bool, true, false, ◌&&◌, ◌⊎◌, inl, inr, String, str_eq, Option, none, some, List, [], ◌∷◌,
  if◌then◌else◌,
}
use lending_bank_gateway.Json.Value.{ℤ}

-- what `int()` makes of a value: an integer, a `ValueError` or `TypeError`, or an `OverflowError`, as
-- of an infinite float
pub data IntResult : Type 0 where
  integer : ℤ → IntResult
  no_integer too_large : IntResult

-- a cell, with its `str()` and its `int()`
pub data Cell : Type 0 where
  blank : Cell
  filled : String → IntResult → Cell

abbrev pub Row : Type 0
Row = List Cell

-- the rows of a sheet, its header first
abbrev pub Sheet : Type 0
Sheet = List Row

abbrev pub Workbook : Type 0
Workbook = List (String × Sheet)

-- `ColumnDrift` with the sheet, `DataQualityError` with the column and the value, and any other
-- exception by its name
pub data IngestError : Type 0 where
  column_drift : String → IngestError
  bad_amount : String → String → IngestError
  other_error : String → IngestError

-- `_EXPECTED`
abbrev pub expected : List (String × List String)
expected =
    (
      "Differences",
      "Type" ∷ "WeDAP Biz Seq No" ∷ "Bank Seq No" ∷ "WeDAP Amount" ∷ "Bank Amount" ∷ "Diff Amount"
          ∷ "WeDAP Status" ∷ "Bank Status" ∷ [],
    )
    ∷ (
      "WeDAP Source",
      "Biz Type" ∷ "Biz Seq No" ∷ "Bank Biz Seq No" ∷ "Amount" ∷ "Currency" ∷ "Payer" ∷ "Payee"
          ∷ "Status" ∷ "Error" ∷ [],
    )
    ∷ (
      "Bank Source",
      "Bank Seq No" ∷ "Txn Date" ∷ "Amount" ∷ "Currency" ∷ "Payer" ∷ "Payee" ∷ "Status"
          ∷ "File Name" ∷ "Line No" ∷ [],
    )
    ∷ []

-- the last sheet of this title, as a dict keeps it
abbrev pub lookup_sheet : String → Workbook → Option Sheet
lookup_sheet name [] = none
lookup_sheet name ((title, sheet) ∷ more) = elim (lookup_sheet name more) [
  | some later ↦ some later
  | none ↦ if str_eq title name then some sheet else none
]

abbrev pub or_empty : Option Sheet → Sheet
or_empty none = []
or_empty (some sheet) = sheet

abbrev pub sheet_of : String → Workbook → Sheet
sheet_of name book = or_empty (lookup_sheet name book)

abbrev pub shown : Cell → String
shown blank = ""
shown (filled s n) = s

abbrev pub same_header : Row → List String → Bool
same_header [] [] = true
same_header [] (name ∷ names) = false
same_header (c ∷ cs) [] = false
same_header (c ∷ cs) (name ∷ names) = str_eq (shown c) name && same_header cs names

abbrev pub first_row : Sheet → Row
first_row [] = []
first_row (row ∷ rows) = row

abbrev pub has_header : Option Sheet → List String → Bool
has_header none names = false
has_header (some sheet) names = same_header (first_row sheet) names

abbrev pub drift_among : List (String × List String) → Workbook → Option String
drift_among [] book = none
drift_among ((name, names) ∷ more) book =
    if has_header (lookup_sheet name book) names then drift_among more book else some name

-- `_check_header`: the first sheet that is missing or has other columns
unfoldable pub header_drift : Workbook → Option String
header_drift book = drift_among expected book

abbrev pub is_empty : Cell → Bool
is_empty blank = true
is_empty (filled s n) = str_eq s ""

abbrev pub all_empty : Row → Bool
all_empty [] = true
all_empty (c ∷ cs) = is_empty c && all_empty cs

abbrev pub not_empty : List Row → List Row
not_empty [] = []
not_empty (row ∷ rows) = if all_empty row then not_empty rows else row ∷ not_empty rows

-- `_collect_rows`
unfoldable pub collect_rows : Sheet → List Row
collect_rows [] = []
collect_rows (header ∷ rows) = not_empty rows

-- `_str`
abbrev pub str_cell : Cell → Option String
str_cell blank = none
str_cell (filled s n) = if str_eq s "" then none else some s

-- its handler names `ValueError` and `TypeError` only
abbrev pub int_or_none : IntResult → IngestError ⊎ Option ℤ
int_or_none (integer n) = inr (some n)
int_or_none no_integer = inr none
int_or_none too_large = inl (other_error "OverflowError")

-- `_int`
abbrev pub int_cell : Cell → IngestError ⊎ Option ℤ
int_cell blank = inr none
int_cell (filled s n) = if str_eq s "" then inr none else int_or_none n

-- `_str(v) or ""`
abbrev pub text_cell : Cell → String
text_cell blank = ""
text_cell (filled s n) = s

-- ===== src/ReconIngest/Reading.antt =====
-- The rows that the sheets give to the three tables.
use lending_bank_gateway.Prelude.{
  ◌⊎◌, inl, inr, String, str_eq, Option, none, some, List, [], ◌∷◌, if◌then◌else◌,
}
use lending_bank_gateway.Json.Value.{ℤ}
use lending_bank_gateway.Amounts.{
  Decimal, Guarded, guarded, guard_error, invalid_operation, max_integer_digits, column_scale,
  parse_guarded_decimal,
}
use lending_bank_gateway.ReconIngest.Sheets.{
  Cell, blank, filled, Row, Workbook, IngestError, bad_amount, other_error, sheet_of, collect_rows,
  str_cell, int_cell, text_cell,
}

pub record DiffRow : Type 0 where
  pub diff_type : String
  pub wedap_biz_seq_no : Option String
  pub bank_seq_no : Option String
  pub wedap_amount : Option Decimal
  pub bank_amount : Option Decimal
  pub diff_amount : Option Decimal
  pub wedap_status : Option String
  pub bank_status : Option String

pub record WedapRow : Type 0 where
  pub biz_type : Option String
  pub biz_seq_no : String
  pub bank_biz_seq_no : Option String
  pub amount : Option Decimal
  pub currency : Option String
  pub payer_account : Option String
  pub payee_account : Option String
  pub status : Option String
  pub error_msg : Option String

pub record BankRow : Type 0 where
  pub bank_seq_no : String
  pub txn_date : Option String
  pub amount : Option Decimal
  pub currency : Option String
  pub payer_account : Option String
  pub payee_account : Option String
  pub status : Option String
  pub file_name : Option String
  pub line_no : Option ℤ

pub record Rows : Type 0 where
  pub diffs : List DiffRow
  pub wedap_rows : List WedapRow
  pub bank_rows : List BankRow

abbrev guarded_amount : String → String → Guarded → IngestError ⊎ Option Decimal
guarded_amount column s (guarded d) = inr (some d)
guarded_amount column s (guard_error reason) = inl (bad_amount column s)
guarded_amount column s invalid_operation = inl (other_error "InvalidOperation")

-- a row of too few cells cannot be taken apart
abbrev short_row : IngestError
short_row = other_error "ValueError"

-- the rows of a sheet, up to the first that raises
abbrev each {ℓ} : {A : Type ℓ} → (Row → IngestError ⊎ A) → List Row → IngestError ⊎ List A
each f [] = inr []
each f (row ∷ rows) = elim (f row) [
  | inl e ↦ inl e
  | inr x ↦ elim (each f rows) [ inl e ↦ inl e | inr xs ↦ inr (x ∷ xs) ]
]

-- What Python's `Decimal` makes of a text is a parameter.
module _ (decimal : String → Option Decimal) where
  -- `_dec`
  abbrev pub dec_cell : String → Cell → IngestError ⊎ Option Decimal
  dec_cell column blank = inr none
  dec_cell column (filled s n) =
      if str_eq s ""
      then inr none
      else guarded_amount column s
          (parse_guarded_decimal max_integer_digits column_scale (decimal s))

  abbrev diff_row : Row → IngestError ⊎ DiffRow
  diff_row (kind ∷ wedap_no ∷ bank_no ∷ wedap ∷ bank ∷ diff ∷ wedap_st ∷ bank_st ∷ more) =
      elim (dec_cell "wedap_amount" wedap) [
        | inl e ↦ inl e
        | inr wedap_amount ↦ elim (dec_cell "bank_amount" bank) [
          | inl e ↦ inl e
          | inr bank_amount ↦ elim (dec_cell "diff_amount" diff) [
            | inl e ↦ inl e
            | inr diff_amount ↦ inr (record {
              diff_type = text_cell kind;
              wedap_biz_seq_no = str_cell wedap_no;
              bank_seq_no = str_cell bank_no;
              wedap_amount = wedap_amount;
              bank_amount = bank_amount;
              diff_amount = diff_amount;
              wedap_status = str_cell wedap_st;
              bank_status = str_cell bank_st;
            })
          ]
        ]
      ]
  diff_row _ = inl short_row

  abbrev wedap_row : Row → IngestError ⊎ WedapRow
  wedap_row
        (kind ∷ number_cell ∷ bank_no ∷ amount ∷ currency ∷ payer ∷ payee ∷ status ∷ error ∷ more) =
      elim (dec_cell "amount" amount) [
        | inl e ↦ inl e
        | inr value ↦ inr (record {
          biz_type = str_cell kind;
          biz_seq_no = text_cell number_cell;
          bank_biz_seq_no = str_cell bank_no;
          amount = value;
          currency = str_cell currency;
          payer_account = str_cell payer;
          payee_account = str_cell payee;
          status = str_cell status;
          error_msg = str_cell error;
        })
      ]
  wedap_row _ = inl short_row

  abbrev bank_row : Row → IngestError ⊎ BankRow
  bank_row (number_cell ∷ date ∷ amount ∷ currency ∷ payer ∷ payee ∷ status ∷ file ∷ line ∷ more) =
      elim (dec_cell "amount" amount) [
        | inl e ↦ inl e
        | inr value ↦ elim (int_cell line) [
          | inl e ↦ inl e
          | inr line_no ↦ inr (record {
            bank_seq_no = text_cell number_cell;
            txn_date = str_cell date;
            amount = value;
            currency = str_cell currency;
            payer_account = str_cell payer;
            payee_account = str_cell payee;
            status = str_cell status;
            file_name = str_cell file;
            line_no = line_no;
          })
        ]
      ]
  bank_row _ = inl short_row

  -- all three sheets, in the order of the source
  unfoldable pub read_rows : Workbook → IngestError ⊎ Rows
  unfolding parse_guarded_decimal collect_rows
  read_rows book = elim (each diff_row (collect_rows (sheet_of "Differences" book))) [
    | inl e ↦ inl e
    | inr diffs ↦ elim (each wedap_row (collect_rows (sheet_of "WeDAP Source" book))) [
      | inl e ↦ inl e
      | inr wedap_rows ↦ elim (each bank_row (collect_rows (sheet_of "Bank Source" book))) [
        | inl e ↦ inl e
        | inr bank_rows ↦
            inr (record { diffs = diffs; wedap_rows = wedap_rows; bank_rows = bank_rows })
      ]
    ]
  ]

-- ===== src/Guards/Required/Promise.antt =====
-- What a refusal promises.
use lending_bank_gateway.Prelude.{
  ℕ, ◌<◌, ◌≤◌, ◌≡◌, ◌≢◌, ◌↔◌, refl, sym, ap, ◌||◌, is_some, ◌∙◌, Bool, true, false, String, Option,
  none, some, List, [], ◌∷◌, All, arith,
}
use lending_bank_gateway.Json.Value.{Fields, get}
use lending_bank_gateway.Domain.MoneyWrite.{
  Outcome, MoneyFields, money_write_reject_fields, money_write_unresolved_fields,
}
use lending_bank_gateway.Guards.Required.{
  RequestState, fields_of, is_blank, missing_of, assert_wedap_required, mark_money_write,
  mark_money_write_dispatch, money_write_error_extra,
}

-- the fields of an error say NOT_APPLIED
abbrev pub SaysNotApplied : Option MoneyFields → Type 0
SaysNotApplied o = (f : MoneyFields) × (o ≡ some f) × (f.outcome ≡ some Outcome.not_applied)

-- a 4xx other than 401 and 403
abbrev pub IsRefusal : ℕ → Type 0
IsRefusal status_code =
    (400 ≤ status_code) × (status_code < 500) × (status_code ≢ 401) × (status_code ≢ 403)

is_some-none : {A : Type 0} (o : Option A) → is_some o ≡ false → o ≡ none
is_some-none none h = refl
is_some-none (some x) h = ground arith

undispatched :
    (o : Option (String × Bool)) → (fields_of o).outcome ≡ some Outcome.not_applied → o ≡ none
unfolding money_write_unresolved_fields
undispatched none h = refl
undispatched (some (biz_seq_no, repayment)) h = ground arith

extra-fields :
    (st : RequestState) (status_code : ℕ) (f : MoneyFields)
    → money_write_error_extra st status_code ≡ some f
    → (st.money_write ≡ true)
      × (fields_of st.operation ≡ f)
      × (400 ≤ status_code)
      × (status_code < 500)
      × (status_code ≢ 401)
      × (status_code ≢ 403)
unfolding money_write_error_extra
extra-fields st status_code f h =
    (ground arith, ground arith, ground arith, ground arith, λ e. ground arith, λ e. ground arith)

extra_iff :
    (st : RequestState) (status_code : ℕ)
    → SaysNotApplied (money_write_error_extra st status_code)
      ↔ ((st.money_write ≡ true) × (st.operation ≡ none) × IsRefusal status_code)
unfolding money_write_error_extra money_write_reject_fields money_write_unresolved_fields
extra_iff st status_code = (
  λ (f, e, says).
      let (marked, same, low, high, not_401, not_403) = extra-fields st status_code f e in
      (
        marked,
        undispatched st.operation (ap (λ x. x.outcome) same ∙ says),
        (low, high, not_401, not_403),
      ),
  λ (marked, bare, (low, high, not_401, not_403)). (money_write_reject_fields, ground arith, refl),
)

-- a call that marks a request
pub data Mark : Type 0 where
  as_money_write : Mark
  as_dispatched : String → Bool → Mark

-- the state of a request once these calls were made, the first of the list first
abbrev pub after_marks : List Mark → RequestState → RequestState
after_marks [] st = st
after_marks (as_money_write ∷ ms) st = after_marks ms (mark_money_write st)
after_marks (as_dispatched biz_seq_no repayment ∷ ms) st =
    after_marks ms (mark_money_write_dispatch biz_seq_no repayment st)

abbrev pub has_money_write : List Mark → Bool
has_money_write [] = false
has_money_write (as_money_write ∷ ms) = true
has_money_write (as_dispatched biz_seq_no repayment ∷ ms) = has_money_write ms

abbrev pub has_dispatch : List Mark → Bool
has_dispatch [] = false
has_dispatch (as_money_write ∷ ms) = has_dispatch ms
has_dispatch (as_dispatched biz_seq_no repayment ∷ ms) = true

-- `request.state` of a new request
abbrev pub unmarked : RequestState
unmarked = record { money_write = false; operation = none }

money_write-after_marks :
    (ms : List Mark) (st : RequestState)
    → (after_marks ms st).money_write ≡ (st.money_write || has_money_write ms)
unfolding mark_money_write mark_money_write_dispatch
money_write-after_marks [] st = ground arith
money_write-after_marks (as_money_write ∷ ms) st =
    ground (arith, money_write-after_marks ms (mark_money_write st))
money_write-after_marks (as_dispatched biz_seq_no repayment ∷ ms) st =
    money_write-after_marks ms (mark_money_write_dispatch biz_seq_no repayment st)

is_some-after_marks :
    (ms : List Mark) (st : RequestState)
    → is_some (after_marks ms st).operation ≡ (is_some st.operation || has_dispatch ms)
unfolding mark_money_write mark_money_write_dispatch
is_some-after_marks [] st = ground arith
is_some-after_marks (as_money_write ∷ ms) st = is_some-after_marks ms (mark_money_write st)
is_some-after_marks (as_dispatched biz_seq_no repayment ∷ ms) st =
    ground (arith, is_some-after_marks ms (mark_money_write_dispatch biz_seq_no repayment st))

-- For a request that any calls of mark_money_write and mark_money_write_dispatch have marked, the
-- fields that are added to its error say NOT_APPLIED exactly if it was marked as a money write, it was
-- never marked as handed to a service, and the error is a 4xx other than 401 and 403.
pub money_write_error_extra_iff :
    (ms : List Mark) (status_code : ℕ)
    → SaysNotApplied (money_write_error_extra (after_marks ms unmarked) status_code)
      ↔ ((has_money_write ms ≡ true) × (has_dispatch ms ≡ false) × IsRefusal status_code)
money_write_error_extra_iff ms status_code =
    let both = extra_iff (after_marks ms unmarked) status_code in
    let writes = money_write-after_marks ms unmarked in
    let dispatches = is_some-after_marks ms unmarked in
    (
      λ says.
          let (marked, bare, refusal) = both.0 says in
          (sym writes ∙ marked, sym dispatches ∙ ap is_some bare, refusal),
      λ (marked, bare, refusal).
          both.1 (writes ∙ marked, is_some-none _ (dispatches ∙ bare), refusal),
    )

-- A body passes exactly if none of the required fields is blank.
pub assert_wedap_required_iff :
    (payload : Fields) (required : List String) (place : String)
    → (assert_wedap_required (some payload) required place ≡ none)
      ↔ All (λ key. is_blank (get key payload) ≡ false) required
unfolding assert_wedap_required missing_of
assert_wedap_required_iff payload [] place = (λ h. tt, λ h. refl)
assert_wedap_required_iff payload (key ∷ more) place = (
  λ h. ground (arith, assert_wedap_required_iff payload more place),
  λ h. ground (arith, assert_wedap_required_iff payload more place),
)

-- ===== src/Inbox/Keeps.antt =====
-- What the inbox of app/api/v1/callbacks.py keeps of each callback.
use mathlib.Core.Option
use lending_bank_gateway.Prelude.{
  ◌≡◌, ◌⊎◌, inl, inr, refl, sym, ap, ◌∙◌, subst, true, false, ◌&&◌, String, str_eq, eq_iff, Option,
  none, some, [], ◌∷◌, find, find-append, find-holds, find-update_where, Bool-cases, if◌then◌else◌,
  arith,
}
use lending_bank_gateway.Json.{Payload}
use lending_bank_gateway.Db.{Result, ok, err}
use lending_bank_gateway.Inbox.{
  InboxStatus, received, processed, CallbackInbox, State, Headers, Answer, acknowledged, World,
  is_row, get_inbox_row, set_inbox_status, after_ingest, drive_first, drive_again, insert_row,
  new_row, redrive, ingest, wedap_transaction_callback,
}
use lending_bank_gateway.Inbox.Replays.{
  is_valid, callback-valid, callback-invalid, inbox-after_ingest,
}

-- Each stored row stays with its payload, and a processed row stays as it is.
abbrev pub Kept : State → State → Type 0
Kept st st' =
    (h : Headers) (r : CallbackInbox)
    → get_inbox_row h st ≡ some r
    → (r' : CallbackInbox) × (get_inbox_row h st' ≡ some r')
      × (r'.payload ≡ r.payload)
      × (r.status ≡ processed → r' ≡ r)

status_cases : (s : InboxStatus) → (s ≡ processed) ⊎ (s ≡ received)
status_cases processed = inl refl
status_cases received = inr refl

module _ (w : World) (hdr : Headers) where
  Kept-refl : (st : State) → Kept st st
  Kept-refl st h r found = (r, found, refl, λ _. refl)

  -- a row of these headers, found under others, is the row of these headers
  same_row :
      (h : Headers) (r : CallbackInbox) (st : State)
      → is_row hdr r ≡ true
      → get_inbox_row h st ≡ some r
      → get_inbox_row hdr st ≡ some r
  same_row h r st own found =
      let theirs : is_row h r ≡ true = find-holds (is_row h) r st.inbox found in
      let et : h.tenant_id ≡ hdr.tenant_id =
        ground (arith, eq_iff r.tenant_id hdr.tenant_id, eq_iff r.tenant_id h.tenant_id) in
      let eb : h.request_id ≡ hdr.request_id =
        ground (arith, eq_iff r.request_id hdr.request_id, eq_iff r.request_id h.request_id) in
      ap (λ t. find (λ x. str_eq x.tenant_id t && str_eq x.request_id hdr.request_id) st.inbox)
        (sym et)
      ∙ ap (λ b. find (λ x. str_eq x.tenant_id h.tenant_id && str_eq x.request_id b) st.inbox)
          (sym eb)
      ∙ found

  inserted_keeps :
      (body : Payload) (st : State) (h : Headers) (r : CallbackInbox)
      → get_inbox_row h st ≡ some r
      → get_inbox_row h (after_ingest w hdr body (insert_row hdr body st)).1 ≡ some r
  inserted_keeps body st h r found =
      ap (λ rows. find (is_row h) rows) (inbox-after_ingest w hdr body (insert_row hdr body st))
      ∙ ground (arith, find-append (is_row h) st.inbox (new_row hdr body ∷ []))

  set_inbox_status-Kept :
      (status : InboxStatus) (error : Option String) (st mid : State)
      → ((r : CallbackInbox) → get_inbox_row hdr st ≡ some r → r.status ≡ received)
      → ((h : Headers) (r : CallbackInbox)
          → get_inbox_row h st ≡ some r
          → get_inbox_row h mid ≡ some r)
      → Kept st (set_inbox_status hdr status error mid)
  unfolding set_inbox_status
  set_inbox_status-Kept status error st mid live keep h r found =
      let f : CallbackInbox → CallbackInbox = λ q. record q { status = status; error = error } in
      (
        if is_row hdr r then f r else r,
        find-update_where (is_row h) (is_row hdr) f mid.inbox (λ x _. refl)
            ∙ ap (Option.map (λ q. if is_row hdr q then f q else q)) (keep h r found),
        ground arith,
        λ was. elim (Bool-cases (is_row hdr r)) [
          | inr other ↦ rw other refl
          | inl own ↦
              let same : get_inbox_row hdr st ≡ some r = same_row h r st own found in
              let waiting = live r same in ground arith
        ],
      )

  drive_first-Kept :
      (st : State) (x : Result (Unit {0}) × State)
      → ((r : CallbackInbox) → get_inbox_row hdr st ≡ some r → r.status ≡ received)
      → ((h : Headers) (r : CallbackInbox)
          → get_inbox_row h st ≡ some r
          → get_inbox_row h x.1 ≡ some r)
      → Kept st (drive_first hdr x)
  drive_first-Kept st (ok u, mid) live keep = set_inbox_status-Kept processed none st mid live keep
  drive_first-Kept st (err e, mid) live keep =
      set_inbox_status-Kept received (some "after_ingest_failed") st mid live keep

  drive_again-Kept :
      (st : State) (x : Result (Unit {0}) × State)
      → ((r : CallbackInbox) → get_inbox_row hdr st ≡ some r → r.status ≡ received)
      → x.1.inbox ≡ st.inbox
      → Kept st (drive_again hdr x)
  drive_again-Kept st (ok u, mid) live e =
      set_inbox_status-Kept processed none st mid live
        (λ h r found. ap (λ rows. find (is_row h) rows) e ∙ found)
  drive_again-Kept st (err _, mid) live e =
      λ h r found. (r, ap (λ rows. find (is_row h) rows) e ∙ found, refl, λ _. refl)

  redriven :
      (row : CallbackInbox) (st out : State) (x : InboxStatus)
      → row.status ≡ x
      → get_inbox_row hdr st ≡ some row
      → out ≡ (elim x [
        | received ↦ drive_again hdr (after_ingest w hdr row.payload st)
        | processed ↦ st
      ])
      → Kept st out
  redriven row st out received was found e = subst (Kept st) (sym e) (
      drive_again-Kept st (after_ingest w hdr row.payload st) (λ r h. ground arith)
        (inbox-after_ingest w hdr row.payload st))
  redriven row st out processed was found e = subst (Kept st) (sym e) (Kept-refl st)

  ingest-Kept :
      (body : Payload) (st : State) (x : Option CallbackInbox) (out : Answer × State)
      → get_inbox_row hdr st ≡ x
      → out ≡ (elim x [
        | none ↦
            (acknowledged false, drive_first hdr (after_ingest w hdr body (insert_row hdr body st)))
        | some existing ↦ (acknowledged true, redrive w hdr existing st)
      ])
      → Kept st out.1
  ingest-Kept body st none out asked e =
      subst (λ x. Kept st x.1) (sym e)
        (drive_first-Kept st (after_ingest w hdr body (insert_row hdr body st)) (λ r h. cc)
          (λ h r found. inserted_keeps body st h r found))
  ingest-Kept body st (some row) out asked e =
      subst (λ x. Kept st x.1) (sym e)
        (redriven row st (redrive w hdr row st) row.status refl asked (unfold redrive in refl))

  every_row_Kept :
      (body : Payload) (st : State) → Kept st (wedap_transaction_callback w hdr body st).1
  every_row_Kept body st = elim (Bool-cases (is_valid body)) [
    | inr bad ↦ subst (Kept st) (sym (callback-invalid w hdr body st bad)) (Kept-refl st)
    | inl good ↦
        subst (λ x. Kept st x.1) (sym (callback-valid w hdr body st good))
          (ingest-Kept body st (get_inbox_row hdr st) (ingest w hdr body st) refl
            (unfold ingest in refl))
  ]

  -- Whatever callback comes, each row of the inbox, of whatever request, stays there with its
  -- payload, and it stays exactly as it is unless it was still to be processed.
  pub callback-keeps :
      (body : Payload) (st : State) (h : Headers) (r : CallbackInbox)
      → get_inbox_row h st ≡ some r
      → (r' : CallbackInbox) × (get_inbox_row h (wedap_transaction_callback w hdr body st).1
          ≡ some r')
        × (r'.payload ≡ r.payload)
        × ((r' ≡ r) ⊎ (r.status ≡ received))
  callback-keeps body st h r found =
      let (r', there, body_kept, kept) = every_row_Kept body st h r found in
      (
        r',
        there,
        body_kept,
        elim (status_cases r.status) [ inl was ↦ inl (kept was) | inr live ↦ inr live ],
      )

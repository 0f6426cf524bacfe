-- ===== src/WedapDelivery/Collector/Safety.antt =====
-- What a turn of the collector leaves behind, and its rounds as runs.
use lending_bank_gateway.Prelude.{
  ℕ, ◌≡◌, ◌⊎◌, inl, inr, refl, ap, ◌∙◌, Bool, true, false, eq_iff, Option, some, List, [], ◌∷◌,
  find, is_some, select, arith, Bool-cases, Option-cases,
}
use lending_bank_gateway.Prelude.Once.{add_once-own}
use lending_bank_gateway.Json.Value.{Value}
use lending_bank_gateway.WedapDelivery.{WedapImportDeliveryTask, claim_result}
use lending_bank_gateway.WedapDelivery.Collection.{Moves, done, after, locks, releases, marks}
use lending_bank_gateway.WedapDelivery.Rounds.Runs.{Others, Moves-trans}
use lending_bank_gateway.WedapDelivery.ImportResult.{ImportResult, parse_result}
use lending_bank_gateway.WedapDelivery.Alerts.{WedapDeliveryAlert, same_alert, Files}
use lending_bank_gateway.WedapDelivery.Alerts.Once.{OnRecord, same_alert_refl}
use lending_bank_gateway.WedapDelivery.Collector.{
  bytes, Fetched, content, not_ready, fetch_raises, fetch, Collector, post, import_alert,
  alert_failed, hand_on, let_go, on_content, after_fetch, collect_locked, collect_task,
  collect_tasks, is_uncollected, collect_results_once,
}

fetch-bytes : (presigned : Bool) (v : Option Value) → fetch presigned (bytes v) ≡ content v
unfolding fetch
fetch-bytes true v = refl
fetch-bytes false v = refl

module _ (w : Collector) (now : ℕ) (task : WedapImportDeliveryTask) where
  alert_failed-OnRecord :
      (r : ImportResult) (alerts : List WedapDeliveryAlert)
      → r.import_status ≡ "FAILED"
      → OnRecord (alert_failed now task r alerts) (import_alert now task r)
  unfolding alert_failed
  alert_failed-OnRecord r alerts failed =
      rw ((eq_iff r.import_status "FAILED").1 failed)
        (add_once-own same_alert same_alert_refl (import_alert now task r) alerts)

  alerts-hand_on :
      (r : ImportResult) (st : Files)
      → (hand_on w now task r st).1.alerts ≡ alert_failed now task r st.alerts
  unfolding hand_on
  alerts-hand_on r st = elim (Bool-cases (post w task r)) [
    | inl taken ↦ rw taken refl
    | inr refused ↦ rw refused refl
  ]

  hand_on-posted :
      (r : ImportResult) (st : Files) → (hand_on w now task r st).0 ≡ true → post w task r ≡ true
  unfolding hand_on
  hand_on-posted r st h = ground arith

  -- what a turn that reads this file comes to
  reads :
      (v : Option Value) (r : ImportResult) (st : Files)
      → w.reply task ≡ bytes v
      → parse_result v ≡ some r
      → collect_locked w now task st
        ≡ hand_on w now task r (record st { tasks = w.while_fetching task st.tasks })
  unfolding collect_locked
  reads v r st replied parsed =
      let got : fetch w.presigned (w.reply task) ≡ content v =
        ap (fetch w.presigned) replied ∙ fetch-bytes w.presigned v in
      rw (got, collect_locked) (rw (parsed, on_content) refl)

  module _ (timeout : ℕ) (st : Files) where
    -- If a collector locks a task's result, and the file that it reads says that the whole import
    -- failed, then an alert of that is on record after the turn, whether recon takes the lines or
    -- not; and if recon refuses them, the turn does not count as a collection.
    pub collect_task-alerts :
        (v : Option Value) (r : ImportResult)
        → (claim_result now timeout task.id (w.token task) (w.before task st.tasks)).0 ≡ true
        → w.reply task ≡ bytes v
        → parse_result v ≡ some r
        → r.import_status ≡ "FAILED"
        → OnRecord (collect_task w now timeout task st).1.alerts (import_alert now task r)
          × ((post w task r ≡ true) ⊎ ((collect_task w now timeout task st).0 ≡ false))
    unfolding collect_task
    collect_task-alerts v r won replied parsed failed =
        let turn =
          reads v r
            (record st {
              tasks = (claim_result now timeout task.id (w.token task) (w.before task st.tasks)).1;
            })
            replied parsed in
        rw won (
          ap (λ x. is_some (find (same_alert (import_alert now task r)) x.1.alerts)) turn
              ∙ ap (λ x. is_some (find (same_alert (import_alert now task r)) x))
                  (alerts-hand_on r _)
              ∙ alert_failed-OnRecord r st.alerts failed,
          rw (ap (λ x. x.0) turn) (
              ground (
                arith,
                hand_on-posted r (record st {
                  tasks =
                      w.while_fetching task
                        (claim_result now timeout task.id (w.token task)
                          (w.before task st.tasks)).1;
                }),
              )),
        )

  module _ (before : Others w.before) (fetching : Others w.while_fetching)
      (posting : Others w.while_posting) where
    hand_on-Moves :
        (r : ImportResult) (st : Files) → Moves st.tasks (hand_on w now task r st).1.tasks
    unfolding hand_on
    hand_on-Moves r st = elim (Bool-cases (post w task r)) [
      | inl taken ↦ rw taken (after _ _ (posting task st.tasks) (marks now task.id (w.token task)))
      | inr refused ↦
          rw refused (after _ _ (posting task st.tasks) (releases task.id (w.token task)))
    ]

    let_go-Moves : (st : Files) → Moves st.tasks (let_go w task st).1.tasks
    let_go-Moves st = after st.tasks _ done (releases task.id (w.token task))

    on_content-Moves :
        (v : Option Value) (st : Files) → Moves st.tasks (on_content w now task v st).1.tasks
    unfolding on_content
    on_content-Moves v st = elim (Option-cases (parse_result v)) [
      | inl broken ↦ rw (broken, on_content) (let_go-Moves st)
      | inr (r, parsed) ↦ rw (parsed, on_content) (hand_on-Moves r st)
    ]

    after_fetch-Moves :
        (f : Fetched) (st : Files) → Moves st.tasks (after_fetch w now task f st).1.tasks
    after_fetch-Moves not_ready st = let_go-Moves st
    after_fetch-Moves fetch_raises st = let_go-Moves st
    after_fetch-Moves (content v) st = on_content-Moves v st

    collect_locked-Moves : (st : Files) → Moves st.tasks (collect_locked w now task st).1.tasks
    unfolding collect_locked
    collect_locked-Moves st = Moves-trans st.tasks _ _ (fetching task st.tasks) (
        after_fetch-Moves (fetch w.presigned (w.reply task))
          (record st { tasks = w.while_fetching task st.tasks }))

    collect_task-Moves :
        (timeout : ℕ) (st : Files) → Moves st.tasks (collect_task w now timeout task st).1.tasks
    unfolding collect_task
    collect_task-Moves timeout st =
        let locked : Moves st.tasks
            (claim_result now timeout task.id (w.token task) (w.before task st.tasks)).1 =
          after _ _ (before task st.tasks) (locks now timeout task.id (w.token task)) in
        elim (Bool-cases
          (claim_result now timeout task.id (w.token task) (w.before task st.tasks)).0) [
            | inl won ↦ rw won (Moves-trans st.tasks _ _ locked (collect_locked-Moves _))
            | inr lost ↦ rw lost locked
          ]

module _ (w : Collector) (now timeout : ℕ) (before : Others w.before)
    (fetching : Others w.while_fetching) (posting : Others w.while_posting) where
  collect_tasks-Moves :
      (ts : List WedapImportDeliveryTask) (st : Files)
      → Moves st.tasks (collect_tasks w now timeout ts st).1.tasks
  unfolding collect_tasks
  collect_tasks-Moves [] st = done
  collect_tasks-Moves (t ∷ ts) st =
      Moves-trans st.tasks _ _ (collect_task-Moves w now t before fetching posting timeout st)
        (collect_tasks-Moves ts _)

  -- A round of the collector is a run of the transactions of dispatchers, collectors and recon, if what
  -- others do before a turn, while a result is fetched and while recon is asked is one.
  pub collect-Moves :
      (limit : ℕ) (st : Files)
      → Moves st.tasks (collect_results_once w now timeout limit st).1.tasks
  unfolding collect_results_once
  collect-Moves limit st =
      collect_tasks-Moves (select (is_uncollected now timeout) limit st.tasks) st

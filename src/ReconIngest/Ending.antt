-- ===== src/ReconIngest/Ending.antt =====
-- How the turn of a task of the recon worker ends.
use mathlib.Core.Option
use lending_bank_gateway.Prelude.{
  ℕ, ◌≡◌, refl, sym, subst, Bool, true, false, String, Option, none, some, ◌⊎◌, inl, inr, List, [],
  ◌∷◌, ◌&&◌, find, is_some, update_where-none, if◌then◌else◌, Option-cases, Bool-cases, arith,
  find-holds, find-update_where, ap, ◌∙◌,
}
use lending_bank_gateway.Prelude.Keys.{Unique, find-narrow}
use lending_bank_gateway.ReconIngest.Sheets.{
  Workbook, header_drift, IngestError, column_drift, bad_amount, other_error,
}
use lending_bank_gateway.ReconIngest.Reading.{Rows, read_rows}
use lending_bank_gateway.ReconIngest.{
  TaskStatus, ReconResultTask, ReconDb, ColumnCheck, is_notified, is_downloaded, has_id,
  atomic_claim, mark_failed, set_status, raised, on_error, land_read, land_rows, parse_checked,
  parse_file, parse_and_land,
}
use lending_bank_gateway.ReconIngest.Worker.{
  TurnEnd, not_claimed, handled, aborted, ingest_into, Turn, after_parse, ingest_claimed,
  ingest_task, ingest_download,
}
use lending_bank_gateway.ReconIngest.Landing.{find-update, land-FoundParsed}
use lending_bank_gateway.Amounts.{Decimal}

abbrev is_ended : TaskStatus → Bool
is_ended TaskStatus.parsed = true
is_ended TaskStatus.failed = true
is_ended _ = false

-- the task is PARSED or FAILED
abbrev pub Ended : ℕ → ReconDb → Type 0
Ended id db =
    (t : ReconResultTask) × ((find (has_id id) db.tasks ≡ some t) × (is_ended t.status ≡ true))

-- the task is DOWNLOADING
abbrev pub Stuck : ℕ → ReconDb → Type 0
Stuck id db =
    (t : ReconResultTask) × ((find (has_id id) db.tasks ≡ some t)
      × (t.status ≡ TaskStatus.downloading))

abbrev Present : ℕ → ReconDb → Type 0
Present id db = (t : ReconResultTask) × (find (has_id id) db.tasks ≡ some t)

-- what others do leaves this task as it is
abbrev pub Leaves : ℕ → (ReconDb → ReconDb) → Type 0
Leaves id others = (db : ReconDb) → find (has_id id) (others db).tasks ≡ find (has_id id) db.tasks

mark_failed-Ended :
    (id : ℕ) (check : ColumnCheck) (db : ReconDb)
    → Present id db
    → Ended id (mark_failed id check db)
unfolding mark_failed
mark_failed-Ended id check db (t, found) =
    (_, (find-update id _ db.tasks t (λ x. refl) found, refl))

module _ (decimal : String → Option Decimal) (path : String) (db : ReconDb) (task : ReconResultTask)
    (found : find (has_id task.id) db.tasks ≡ some task) where
  stopped-Ended :
      (e : IngestError) → Ended task.id (after_parse task.id (raised e, on_error task.id e db))
  unfolding after_parse
  stopped-Ended (column_drift sheet) = mark_failed-Ended task.id _ db (task, found)
  stopped-Ended (bad_amount column value) = mark_failed-Ended task.id _ db (task, found)
  stopped-Ended (other_error name) = mark_failed-Ended task.id _ db (task, found)

  land_read-Ended :
      (check : ColumnCheck) (read : IngestError ⊎ Rows)
      → Ended task.id (after_parse task.id (land_read task check path db read))
  unfolding after_parse
  land_read-Ended check (inl e) = stopped-Ended e
  land_read-Ended check (inr rows) =
      let (t, shows) = land-FoundParsed task task check path rows db found refl in
      (t, (shows.0, ap is_ended shows.1.0))

  land_rows-Ended :
      (book : Workbook)
      → is_downloaded task.status ≡ true
      → Ended task.id (after_parse task.id (land_rows decimal task path book db (some task)))
  land_rows-Ended book ready = rw ready (land_read-Ended _ (read_rows decimal book))

  parse_checked-Ended :
      (book : Workbook) (drifted : Option String)
      → is_downloaded task.status ≡ true
      → Ended task.id (after_parse task.id (parse_checked decimal path book db task drifted))
  parse_checked-Ended book none ready = rw found (land_rows-Ended book ready)
  parse_checked-Ended book (some sheet) ready = stopped-Ended (column_drift sheet)

  parse_file-Ended :
      (file : String ⊎ Workbook)
      → is_downloaded task.status ≡ true
      → Ended task.id (after_parse task.id (parse_file decimal path db task file))
  parse_file-Ended (inl name) ready = stopped-Ended (other_error name)
  parse_file-Ended (inr book) ready = parse_checked-Ended book (header_drift book) ready

id_of :
    (id : ℕ) (t : ReconResultTask) (db : ReconDb) → find (has_id id) db.tasks ≡ some t → t.id ≡ id
id_of id t db found = let same = find-holds (has_id id) t db.tasks found in ground (arith, same)

find_both :
    (id : ℕ) (xs : List ReconResultTask)
    → is_some (find (λ t. has_id id t && is_notified t.status) xs) ≡ true
    → (t : ReconResultTask) × (find (has_id id) xs ≡ some t)
find_both id [] h = ground (arith, h)
find_both id (x ∷ xs) h = elim (Bool-cases (has_id id x)) [
  | inl hit ↦ rw hit (x, refl)
  | inr miss ↦ let (t, found) = find_both id xs (ground (arith, miss, h)) in rw miss (t, found)
]

module _ (decimal : String → Option Decimal) (id : ℕ) where
  parse_and_land-Ended :
      (meanwhile : ReconDb → ReconDb) (path : String) (file : String ⊎ Workbook) (db : ReconDb)
      (t : ReconResultTask)
      → Leaves id meanwhile
      → find (has_id id) db.tasks ≡ some t
      → is_downloaded t.status ≡ true
      → Ended id (after_parse id (parse_and_land decimal meanwhile id path file db))
  unfolding parse_and_land
  parse_and_land-Ended meanwhile path file db t leaves found ready =
      let e = id_of id t db found in
      let found' =
        subst (λ n. find (has_id n) (meanwhile db).tasks ≡ some t) (sym e) (leaves db ∙ found) in
      rw (found, ready)
        (subst (λ n. Ended n (after_parse n (parse_file decimal path (meanwhile db) t file))) e
          (parse_file-Ended decimal path (meanwhile db) t found' file ready))

module _ (decimal : String → Option Decimal) (dest : ReconResultTask → String) where
  ingest_download-Ended :
      (turn : Turn) (task : ReconResultTask) (db : ReconDb) (failure : Option String)
      → Leaves task.id turn.while_reading
      → Present task.id db
      → Ended task.id (ingest_download decimal dest turn task db failure)
  unfolding set_status
  ingest_download-Ended turn task db (some name) leaves present =
      mark_failed-Ended task.id _ db present
  ingest_download-Ended turn task db none leaves (t, found) =
      parse_and_land-Ended decimal task.id turn.while_reading (dest task) turn.file
        (set_status task.id TaskStatus.downloaded db) _ leaves
        (find-update task.id (λ x. record x { status = TaskStatus.downloaded }) db.tasks t
          (λ x. refl) found)
        refl

abbrev pub key : ReconResultTask → ℕ
key t = t.id

claimed_status :
    (b : Bool) (t : ReconResultTask) → is_some (if b then some t else none) ≡ true → b ≡ true
claimed_status true t h = refl
claimed_status false t h = h

atomic_claim-Stuck :
    (id : ℕ) (db : ReconDb)
    → Unique key db.tasks
    → (atomic_claim id db).0 ≡ true
    → Stuck id (atomic_claim id db).1
unfolding atomic_claim
atomic_claim-Stuck id db unique claimed =
    let (t, found) = find_both id db.tasks claimed in
    let own : has_id id t ≡ true = find-holds (has_id id) t db.tasks found in
    let waiting : is_notified t.status ≡ true = claimed_status (is_notified t.status) t (
      sym (ap is_some (find-narrow key id (λ x. is_notified x.status) t db.tasks unique found))
      ∙ claimed) in
    (
      record t { status = TaskStatus.downloading },
      (
        find-update_where (has_id id) _ (λ x. record x { status = TaskStatus.downloading }) db.tasks
              (λ x hit. refl)
            ∙ ap (Option.map _) found
            ∙ rw (own, waiting) refl,
        refl,
      ),
    )

-- what a turn leaves of its task, by its end
abbrev pub Ends : Turn → ReconResultTask → ReconDb → TurnEnd × ReconDb → Type 0
Ends turn task db (not_claimed, after) = after.tasks ≡ (turn.before db).tasks
Ends turn task db (handled, after) = (turn.dir_fails ≡ none) × Ended task.id after
Ends turn task db (aborted name, after) = (turn.dir_fails ≡ some name) × Stuck task.id after

not_found :
    (p : ReconResultTask → Bool) (xs : List ReconResultTask)
    → is_some (find p xs) ≡ false
    → find p xs ≡ none
not_found p xs h = elim (Option-cases (find p xs)) [ inl e ↦ e | inr (x, e) ↦ ground arith ]

atomic_claim-lost :
    (id : ℕ) (db : ReconDb)
    → (atomic_claim id db).0 ≡ false
    → (atomic_claim id db).1.tasks ≡ db.tasks
unfolding atomic_claim
atomic_claim-lost id db lost = update_where-none _ _ db.tasks (not_found _ db.tasks lost)

module _ (decimal : String → Option Decimal) (dest : ReconResultTask → String) (turn : Turn)
    (task : ReconResultTask) (db : ReconDb) where
  ingest_into-Ends :
      (claimed : ReconDb) (failure : Option String)
      → turn.dir_fails ≡ failure
      → Leaves task.id turn.while_downloading
      → Leaves task.id turn.while_reading
      → Stuck task.id claimed
      → Ends turn task db (ingest_into decimal dest turn task claimed failure)
  unfolding ingest_claimed
  ingest_into-Ends claimed (some name) e downloads reads stuck = (e, stuck)
  ingest_into-Ends claimed none e downloads reads (t, (found, status)) = (
    e,
    ingest_download-Ended decimal dest turn task (turn.while_downloading claimed)
        turn.download_fails reads (t, downloads claimed ∙ found),
  )

  -- If the ids are a key, and what others do during the download and the reading leaves a task as it
  -- is, then a turn of the worker ends in one of three ways: it does not get the task and changes none; the task is PARSED or
  -- FAILED, whatever the download, the workbook and its rows are; or the archive's directory cannot
  -- be made, the exception ends the round, and the task stays DOWNLOADING.
  pub ingest_task-Ends :
      Unique key (turn.before db).tasks
      → Leaves task.id turn.while_downloading
      → Leaves task.id turn.while_reading
      → Ends turn task db (ingest_task decimal dest turn task db)
  unfolding ingest_task
  ingest_task-Ends unique downloads reads =
      elim (Bool-cases (atomic_claim task.id (turn.before db)).0) [
        | inl won ↦ rw won (
            ingest_into-Ends (atomic_claim task.id (turn.before db)).1 turn.dir_fails refl downloads
              reads (atomic_claim-Stuck task.id (turn.before db) unique won))
        | inr lost ↦ rw lost (atomic_claim-lost task.id (turn.before db) lost)
      ]

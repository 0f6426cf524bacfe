-- ===== src/Lib.antt =====
-- The money flows of lending-bank-gateway, the service between the lending platform and wedap, the
-- bank's transaction system. A money order is accepted and made durable, sent to wedap, and moved to a
-- final status by wedap's answer, by a callback, or by a status query; the final status is audited and
-- announced downstream exactly where it is assigned.
--
-- The program's parts, and the files that model them:
--   app/domain/states.py, biz_seq.py, money_write.py: Domain/States, Domain/BizSeq, Domain/MoneyWrite.
--   app/models/*.py: the tables, as records and lists of rows, in Db (Inbox and ReconcileWorker have
--     their own tables).
--   app/services/idempotency.py: Idempotency (check_or_register, record_response).
--   app/services/audit.py: Audit (write_audit, in the three steps of the source).
--   app/services/outbox.py: Outbox (enqueue_forward) and Outbox/Dispatch (dispatch_once with its
--     claim, its post and its compare-and-set, _reclaim_stale_sending, replay_dead).
--   app/services/order_finalize.py: Finalize (finalize_terminal_in_session).
--   app/services/submit.py: Submit, with Submit/Register for transaction 1, Submit/ParseAck and
--     Submit/Judge for the call of wedap, Submit/Conclude for transaction 2 and for submit_order.
--   app/services/reversal.py: Reversal (submit_reversal, _reverse_original).
--   app/services/order_status_reconcile.py: Reconcile (resolve_terminal_via_status_query).
--   app/services/callback_finalize.py: Callback (resolve_callback_terminal).
--   app/api/v1/callbacks.py: Inbox (wedap_transaction_callback), driven by the hook of app/main.py.
--   app/workers/order_reconcile_worker.py: ReconcileWorker (reconcile_once, alert_stuck_orders).
--   app/services/wedap_delivery.py, app/workers/wedap_delivery_dispatcher.py: WedapDelivery (the tasks
--     and their transactions), with WedapDelivery/Enqueue, Rounds (dispatch_delivery_once), Receipts
--     (the receipts to recon), Collector (collect_results_once), Alerts (alert_stuck_deliveries).
--   app/services/wedap_import.py: WedapDelivery/Send (deliver_task, deliver_batch).
--   app/services/wedap_import_result.py: WedapDelivery/ImportResult (parse_result), on Json/Value.
--   app/clients/wedap.py: WedapClient (_unwrap) and WedapClient/Import (notify_batch_uploaded,
--     request_presign).
--   app/services/recon_ingest.py, app/workers/recon_worker.py: ReconIngest (parse_and_land, with the
--     sheets in Sheets and Reading), ReconIngest/Worker (ingest_pending_once).
--   app/services/account_guard.py, app/models/platform_account.py: AccountGuard
--     (assert_platform_account_allowed, _check_and_record, _evaluate).
--   app/core/context.py, s2s.py, svc_jwt.py: Gate, the middleware in the order of app/main.py, with
--     Gate/Ids, Gate/S2s (S2SMiddleware), Gate/Tokens (parse_caller_tokens), Gate/SvcJwt
--     (BffSvcJwtVerifier).
--   app/core/amounts.py, app/api/deps.py: Amounts (parse_guarded_decimal), Guards/Amount (parse_amount),
--     Guards/Details (validate_detail_consistency), Guards/Required (the other guards).
-- Closing, Ledger, Progress and Announce are about all of these together: Ledger has the transactions
-- by their shape (Step), any interleaving of them (Run), and the entry points as runs; Progress follows
-- an order through a run, Announce the outbox against the orders, Ledger/Audited the audit log,
-- Ledger/Dispatcher a round of the dispatcher.
-- Tests holds concrete requests, and Tests/* the witnesses.
--
-- The state is one database value, Db, that is passed along. Each transaction is one function on
-- it: rows that the source locks are not changed by others meanwhile, and a raised exception rolls
-- back, so an error carries no database. Where the source waits for wedap outside a transaction,
-- the model has an arbitrary function on the database, for what other transactions do in that time.
-- What a call of wedap ends in (an answer, a transport error, an HTTP status, a business error,
-- another exception) is an argument. A unique key is checked by the insert; the insert that loses a
-- race is modelled as the one that comes later. SHA-256 over canonical JSON, the HTTP client of the
-- dispatcher and its table of URLs are parameters, and so are S3 and the requests to wedap's
-- import. Timestamps are natural numbers of one unit, amounts are texts that these flows only
-- store. No loop needs fuel: they are over lists; the order of a coefficient (Amounts.order) has
-- the coefficient itself as fuel, which bounds its digits.
--
-- Not modelled: the notices and the client of recon (app/api/v1/recon_notify.py,
-- app/clients/recon_callback.py), the HTTP routes but the callback's, the error handlers and wiring
-- of app/main.py, the headers and the transport of the clients, and of app/core the configuration,
-- the sessions and the OpenAPI document. Errors of the database, column lengths, logging and the
-- endless loops of the workers, which only repeat a round, are left out. The HTTP client of the
-- outbox answers or raises an httpx.HTTPError: another exception of it would end the round, and the
-- row would be reclaimed. A list under "data" in wedap's envelope, which Python's dict takes if it is
-- one of pairs, counts as refused. Decimals are in Python's default context, with its precision and
-- its least exponent; its greatest is out of reach of the amounts that the guard lets pass.
pub mod WedapDelivery
pub mod Tests
pub mod ReconcileWorker
pub mod Inbox
pub mod WedapClient
pub mod Gate
pub mod Amounts
pub mod Guards
pub mod ReconIngest
pub mod AccountGuard
pub mod Announce
pub mod Prelude
pub mod Domain
pub mod Json
pub mod Db
pub mod Audit
pub mod Outbox
pub mod Finalize
pub mod Idempotency
pub mod Submit
pub mod Reversal
pub mod Reconcile
pub mod Callback
pub mod Closing
pub mod Ledger
pub mod Progress

-- ===== src/Lib.antt =====
-- The engine of a predictive token scanner, as a model of the parts that carry its logic.
--
-- Parts, in the order in which an iteration of the engine uses them:
-- * Engine (engine/run.py, engine/state.py): after each ingestion scan the loop runs its phases
--   (forecast, retention, parity, night crawler, data lake, score drift), each under the watchdog.
--   Engine/State is `EngineState` with its `mark_*` methods, Engine/Phase is `_run_watchdog_phase`, and
--   Engine/Phases is `run_engine_phases`, one function per block. Engine/Main is the loop of `main`
--   around them, with what a scan comes to as an argument. Alarms, Errors, Clock, Display and Degraded
--   hold the proofs. Engine/Broker is `_SSEBroker`, which hands the state's events to the clients of the API,
--   with its clients, queues and loops as one state; Stream, Feed and Subscribers hold the proofs.
-- * Watchdog (ops/watchdog.py): runs a phase in a thread with a deadline, keeps the registries of
--   runs that are in flight or abandoned, and counts skips. Registry has the module's dictionaries as
--   one record and its functions; Stage is `run_stage_with_timeout` with the thread it starts; Upkeep
--   is `WatchdogState` with `run_watchdog`, which runs after each scan. Skips,
--   Threads, Reach and Abandoned hold the proofs; Threads has the steps of the loop and of the threads
--   as an indexed data type.
-- * Lifecycle (pump_physics/engine.py, and `alert_generation_allowed` of ops/alert_quality.py): the
--   lifecycle phase of a token. Phase is `detect_phase` and the order of the phases; Store is the event
--   and alert tables with `scan`, `_emit` and `_maybe_transition_alert`. Monotone, History, Alerts and
--   Detect hold the proofs.
-- * Pool (ingestion/rpc_pool.py): `RpcEndpointPool`. State is the pool with its constructor, `pick` and
--   the marks, Alert its notifications, Probe its probes. Health, Pick, Marks, History,
--   Once and Reach hold the proofs; Reach has the methods as an indexed data type.
-- * Risk (risk_engine/rules.py): Band is `band_from_collapse_probability`; Rules, Assess and Score are
--   `assess_risk`, with one function per rule. Order and Verdict hold the proofs.
-- * Writes (storage/write_queue.py): `WriteQueue`. Queue has its steps; Drain, Lost and
--   Windows hold the proofs.
-- * Heuristics (crawlers/heuristics.py): `HeuristicsEngine`. Memory has its operations, Outcomes the
--   proofs.
-- * Crawl (crawlers/base.py, crawlers/orchestrator.py): the night crawlers. Health is `CrawlerHealth`,
--   Fetch is `BaseCrawler.fetch` with its retries and its deduplication, Orchestrator is `run_all` with the
--   schedule, which asks the heuristics. Latch, Fresh, Sound, Adaptive and Fleet hold the proofs.
-- * Mempool (mempool/solana.py, `upsert_event` of radar/ignition.py): Watch is `SolanaMempoolWatcher` for one
--   asset, with the width of the cursor's column; Cursor and Burst hold the proofs.
-- * Scoring (scoring/ensemble.py): the blend of three scorers. Scorer is `ScorerAccuracy`, Decimal the
--   conversions of the saved buckets, Ensemble is `EnsembleEngine` with the row that it keeps, Weights its
--   weights, Outcomes what it records, and Blend is `blend`. Flush, Restart and Range hold the proofs.
--   Python's `round` and `int` of a float are the interface `Rounding`.
-- * Replay (common/time.py, validation/leakage_guard.py, risk_engine/confidence_calibration.py): what keeps a
--   replay to what was known at its time. Hours is `hours_between`, Guard the frozen decision time and the
--   check of rows, Split is `chronological_split`; each file has its proofs.
-- * Narrative (narrative/cluster.py): Cluster is `cluster_mentions`, with its embedder as an argument; Keyed and
--   Untitled hold the proofs.
-- * Webhooks (data_lake/webhooks.py, data_lake/manager.py): Policy is `validate_webhook_url`, Dispatch
--   `should_dispatch` and `dispatch_webhook`, Pass the loops `dispatch_alerts` and
--   `_dispatch_high_signal_webhooks` with registration and deletion. A webhook has the requests that were made
--   for it, as a ghost; the resolver, the receiver and the clock's steps are arguments. Allowed, Post and Runs
--   hold the proofs.
-- * Notifier (ops/notifier.py; `snooze_alert` and `ack_alert` of api/main.py): Push is one push, Flush and Digest
--   `NtfyNotifier.flush`, Notices the operational pushes. Whether the call of a post succeeds is an argument.
--   Once and Runs add what the code does not see, as a ghost: the pushes that the server took although the
--   call failed or the scan was rolled back (ingestion/service.py). Once, Daily, Runs, Silent and Disabled
--   hold the proofs; Disabled joins the notifier to the alerts of Pool.
-- * Observed (risk_engine/outcomes.py): Rows is `record_risk_outcome` and the evaluation of the rows, Report the
--   counts by band, Feed the feedback to the ensemble of Scoring and the whole of `evaluate_outcomes`. A row
--   counts how often it was fed, as a ghost. Judged, Bands and Fed hold the proofs.
-- * Labels (forecast/labels.py, `point_in_time_market_rows` of backtest/runner.py): Upsert is `upsert_label`,
--   Generate `LabelEngine.generate` and `seed_labels_at_feature_timestamps`. Real, Elapsed and Leak hold the
--   proofs.
-- * Evm (mempool/evm.py, with the upserts of storage/repository.py): Node is the calls of the node and what is
--   read of their answers, Store `_store_pair`, Watch `watch` and `run_evm_watch`. What the node answers and
--   Python's text methods are arguments; an exception is a value. Oriented and Missed hold the proofs.
--
-- Shared: Prelude has the native numbers, lists, dictionaries on text keys (association lists) and
-- integers; Float is the interface of Python's `float`, its operations and the laws of IEEE 754 that are
-- relied on, with hundredths as an instance that meets them, and Float/MinMax is `min` and `max`.
--
-- Conventions:
-- * A method that holds its lock for its whole body is one function on the state. Where a step spans
--   several locks (the watchdog's threads, `submit` and `stop` of the queue) it is several functions.
-- * A call of code that may hang, raise or be stopped is an argument that says what came of it
--   (`Weather`, `Progress`, `Written`); the theorems quantify over it. The stores are states of the
--   model, and the rows of other tables (evidence, calibration, ratings) are arguments.
-- * Clocks are natural numbers of ticks. A setting that may be negative in the code and then acts like 0
--   is a natural number, and a duration of minutes is a whole number.
-- * Messages for people (logs, alert texts, risk reasons) are values with the data that they show.
-- * Loops are over a list, and the writer's loop over the list of its turns, with the number of turns that
--   is enough in the theorem. Only `hours_between` runs on fuel, and a turn for each hour up to the end and
--   two more are enough.
--
-- Not modelled: the numeric training and statistics (forecast models, calibrator, validation, score drift), the
-- code of each crawler that reads its source, the files of the data lake, the rest of the API and the user
-- interface, which are I/O or SQL around third-party code; of the modelled files the functions that only talk to the database, the file system or
-- a socket; the hooks that the watchdog calls, which have no effect on its state; and the loss of an alarm
-- row whose write fails.
pub mod Prelude
pub mod Float
pub mod Watchdog
pub mod Engine
pub mod Lifecycle
pub mod Pool
pub mod Risk
pub mod Writes
pub mod Heuristics
pub mod Crawl
pub mod Mempool
pub mod Evm
pub mod Scoring
pub mod Replay
pub mod Narrative
pub mod Webhooks
pub mod Notifier
pub mod Observed
pub mod Labels

-- ===== src/Lib.antt =====
-- Models and proofs for Sentinel Auth (app/): the Core service, Detection and the ML service.
--
-- Core keeps the accounts, their roles, sessions and MFA challenges, and answers HTTP requests.
-- Each request runs one handler over one database session. Prelude has the tables as lists of rows
-- with the queries and updates of the ORM. Core (Core/Tables) has the rows of app/models.py,
-- Core/Request the monad of a handler: `working` is what the handler's session sees, `committed`
-- what `db.commit()` has written, an exception is a value, and `respond` opens a session on what
-- is committed and drops the rest, as get_core_db of app/db.py does. Core/Externals lists what
-- Core calls and does not implement: the clock, random values, Argon2, SHA-256, the parsers of
-- addresses, the mail server and the HTTP service of Detection. Core/Client models get_client_ip
-- of app/client_ip.py and the fingerprint of app/device_fingerprint.py.
--
-- Auth is app/auth.py: Auth/Register is register, Auth/Login the handler `login` in the stages
-- that its comments number, Auth/RateLimits its counter, Auth/Risk _pre_token_risk, Auth/Sessions
-- _create_session, Auth/Events _send_login_event and _audit, Auth/Mfa `mfa_verify`, Auth/Account
-- refresh_token, logout, logout_all, list_sessions and revoke_session. Authz is app/authz.py. Iam
-- is app/iam.py, a Security Administrator's operations. Actions is app/internal_actions.py, the
-- protective actions that Detection asks for, behind the shared secret of app/internal_auth.py
-- (Core/Secret). Devices is app/devices.py: Devices/Approval the request of a new device,
-- Devices/Completion its approval and the login that it completes. Transactions is a schedule of
-- the five handlers that write to mfa_transactions, those of Auth and of Devices: Devices/Waiting
-- is about a request that waits for its approval while they run (Devices/Waiting/Consent),
-- Transactions/Settled about a challenge that has been verified, and Transactions/Spent about a
-- request that has completed its login.
--
-- Detection keeps its own database (sentinel_detection): Detection/Tables has its rows, and the
-- monad of Core/Request is used over it. Alerts is app/alerts.py, the handlers of the SOC
-- analysts; Alerts/Protect is request_security_action, which asks Core for a protective action
-- through app/internal_client.py (Detection/Client), where Core's answer over the network is a
-- parameter. Policies is the part of app/detection.py that checks and activates a policy:
-- Policies/Config resolve_config, Policies/Rules validate_rule, Policies/Activation
-- activate_policy. Python's numbers are the parameter Arithmetic, of which no law is assumed but
-- the order laws IsOrdered where a theorem names them.
--
-- Pipeline is the rest of app/detection.py, the scoring of login attempts. Core delivers an event
-- to Pipeline/Events (receive_login_event), which stores the attempt and lets Pipeline/Process
-- (process_attempt) score it: Pipeline/Features is build_features and the novelty of a device,
-- Pipeline/Compare compare, Pipeline/Evaluation evaluate_rules, Pipeline/Ml call_ml_service,
-- Pipeline/Levels DECISION_MATRIX, the risk levels and the combined score, Pipeline/Attempt the
-- logs and the assessment. Pipeline/Store has Detection's tables with the assessments and the
-- logs, Pipeline/Enforcement enforce_action_in_core and _record_action_outcome, Pipeline/Sweep
-- rescore_failed_attempts, Pipeline/Gate pre_token_check, whose response Pipeline/Held puts
-- before the gate of Core's login. What the ML service and Core answer is a parameter each, a
-- function of the number of the call and of what was sent. The parameter `rival` is the row of
-- the same or another event that a delivery running at the same time commits between the look-up
-- of the event and the commit; the unique key of event_id and the type INET of ip_address are in
-- insert_attempt. Of the logs'
-- `details` only the value of the field that a rule has matched is kept, and the columns
-- created_at, updated_at and detection_scores are left out. A JSON value that a column takes may
-- have any type. A window that would begin before time 0 begins at 0.
--
-- LoginHistory is app/login_history.py, the search over login attempts with its filters, its order
-- (LoginHistory/Order) and its pages (LoginHistory/Pages). Manager is the part of app/manager.py
-- that resolves the window of a request for analytics and lays the grid of hours or days over it
-- (bucket_starts, _bucket_count), with the copy of the same checks that the two sources have
-- (_resolve_window of app/core_analytics.py). The two loops over buckets are on fuel: as many
-- rounds as there are steps from the floor of the start to the end, rounded up.
--
-- MlService is app/ml.py, the service that Detection calls: `score`, get_ml_runtime, reason_codes
-- and the checks of an artifact. The artifact that joblib reads from a path, the estimator and the
-- scaler are parameters; request_id is unique in inference_logs, which insert_log looks at;
-- processing_time_ms and error_message of the log are left out. The NUMERIC columns of the log are
-- Arithmetic.numeric, which rounds or finds no room. MlService/Contract is about its
-- log, MlService/Answers about what Detection makes of its answers.
--
-- Tests holds an outside world that can be run, a small database, and runs of the handlers.
--
-- Times are microseconds, UUIDs numbers. Times have no upper end: datetime.max is in Manager/Grid
-- only, as a condition of the theorem that the loop over the buckets ends. The two attempts to
-- deliver an event are recursion on the attempts left; the loops over rules, attempts and log
-- entries are recursion on the list. A handler runs alone, and a theorem about a run is about
-- requests that are served one after another. `login` and `mfa_verify` of app/auth.py, the writing
-- handlers of app/devices.py and activate_policy of app/detection.py take row locks
-- (`with_for_update`), which serialise the requests on one row. app/alerts.py, app/iam.py,
-- app/internal_actions.py and refresh_token of app/auth.py take none: what is shown of their runs
-- does not extend to requests that overlap. The one overlap that is modelled is that of two
-- deliveries (`rival`).
--
-- Not modelled: get_my_account, the aggregation of the analytics for managers,
-- refresh_feature_statistics of the ML service, paging and projections of rows, SMTP, FastAPI's and
-- pydantic's parsing of bodies, log output, and the second check of the same data that the
-- database's constraints and column types make, but for the keys, the INET and the NUMERIC columns
-- named above: the addresses that app/devices.py stores and the scores in Detection's tables are
-- kept as they are.
pub mod Prelude
pub mod Core
pub mod Auth
pub mod Authz
pub mod Iam
pub mod Devices
pub mod Transactions
pub mod Actions
pub mod Detection
pub mod Alerts
pub mod Pipeline
pub mod LoginHistory
pub mod Manager
pub mod MlService
pub mod Policies
pub mod Tests

-- ===== src/Lib.antt =====
-- A monitoring service: HTTP endpoints are checked on a schedule, results are stored, an alert is
-- sent when an endpoint goes down and another message when it recovers, and an API shows it all.
--
-- The parts, and the files that model them:
--
--   Model         app/models.py: the rows of the five tables. `Database` holds the tables as lists
--                 in storage order, and the next key of each table. A time is a number of
--                 microseconds.
--   Configuration app/config.py: the settings that it reads from the environment.
--   Logging       app/logging_config.py on the tree of Python's loggers.
--   Validation    app/ssrf.py and the validators of app/models.py: `validate_check_url`,
--                 `resolves_to_blocked_address`, `check_target_matches_channel`.
--   Dispatcher    app/dispatcher.py. Dispatcher/Probe is the HTTP part of `perform_check`,
--                 Dispatcher/Alerting the body of its loop over the alert rows, Dispatcher the task as a
--                 whole with its transaction; Dispatcher/Claim is `dispatch_due_checks`, Dispatcher/Purge
--                 `purge_old_results`. The other children hold proofs: Progress, Rows, Frame and Runs
--                 are about what a check does to one configuration, History defines what alerts a
--                 history of checks calls for, Outages is about the messages that are sent, and Published
--                 about the status that the dashboard is told.
--   Store         app/db.py: the statements on users and endpoints. Store/Status is the status query,
--                 Store/Alerts the statements on alert configurations. Store/Integrity is about the
--                 foreign and primary keys, Store/Tenancy about two users.
--   Analytics     app/db.py and `get_analytics` of app/api.py. Analytics/Incidents is the query with the
--                 window functions, and its children relate it to the maximal runs of down checks.
--   RateLimit     app/rate_limit.py: `enforce` on a Redis that is a parameter; RateLimit/Memory is one.
--   Auth          app/auth.py: tokens and passwords, with PyJWT and pwdlib as parameters.
--   Api           app/api.py: the routes of endpoints and, in Api/Alerts, of alert configurations;
--                 Api/Accounts has `register` and `login`, which meet the rate limit and app/auth.py,
--                 Api/Observed the middlewares and `/metrics`. Api/Ownership is about the user whom a
--                 configuration and its alerts belong to, over the routes and the tasks together;
--                 Api/Isolation is about an endpoint of another user, Api/Broken about an update that
--                 fails after its commit.
--   Alerts        app/alerts.py: an attempt to deliver an alert, and what happens when all have failed;
--                 Alerts/Messages and Alerts/Body are the subject and the body of the mail.
--   Worker        A worker that runs the tasks of Dispatcher and Alerts and handles the signals about
--                 them, in any order: Worker/History has what one configuration's history calls for.
--                 Worker/Context is app/celery_app.py: the logging context of a task.
--   Metrics       app/worker_metrics.py: the series of the worker's counters.
--   Seed          scripts/seed_demo.py.
--   Migrations    alembic/versions, and alembic/env.py: Migrations/Versions has the four versions,
--                 Migrations/Metadata the tables of app/models.py that they are to make. An operation
--                 of alembic.op does what its SQL statement does on PostgreSQL.
--   Realtime      app/realtime.py: the open sockets, and the messages that they are sent.
--
-- How they meet: the routes validate a request (Validation) and call the statements (Store) on the
-- database; the dispatcher claims the endpoints that are due and queues a check for each; a check
-- writes a result, runs the alert state of each configuration and queues messages; the routes read
-- what the checks have stored.
--
-- An operation takes the database and returns the new one beside its answer; an exception is a value of
-- the answer's type. A transaction that fails gives the old database back, while a message that is
-- queued stays queued, as a Celery message does. What is outside is an input: the clock, the HTTP
-- client's outcome, whether a commit or a publication succeeds (`CheckRun`, `Dispatch`), and the
-- functions of `Network`, `Redis`, `Jwt`, `Hasher`, `ContextVars`, `lower` and `upper`. What a theorem
-- needs of these is in the records `IsRedis`, `IsJwt`, `IsHasher` and `IsContextVars`. A row lock orders
-- concurrent claims, so they are a sequence.
--
-- Fuel: `purge_loop` has it, since its `while True` ends when a pass deletes nothing; a pass that goes on
-- has deleted a row, so the fuel is to be more than the rows. `digits`, which prints a number, divides
-- by ten in each round, so the number itself is enough. `versions_after` follows the chain of revisions,
-- of which there are as many as there are files. Every other loop is by recursion on a list.
--
-- Not modelled: the headers From and To of a mail, whose addresses EmailMessage parses, the payload of a
-- webhook, a broker that refuses a message of dispatch_due_checks after its commit, the worker's
-- histograms, what structlog's processors do to a line, the metrics server of the worker, the offline
-- mode of Alembic and the pages in the browser; in `int`, the digits of other scripts. PostgreSQL's
-- percentiles and Python's rounding are parameters, since their results are only passed on.
pub mod Prelude
pub mod Model
pub mod Configuration
pub mod Logging
pub mod Validation
pub mod Dispatcher
pub mod Store
pub mod Analytics
pub mod RateLimit
pub mod Auth
pub mod Api
pub mod Realtime
pub mod Alerts
pub mod Worker
pub mod Metrics
pub mod Seed
pub mod Migrations

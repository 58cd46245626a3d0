-- ===== src/Lib.antt =====
-- A model of stakeroute, a market that decides which hypotheses get an operator's attention: agents
-- stake credits on probabilities, a worker books their forecasts, aggregates them, ranks the
-- hypotheses, and settles the forecasts when an outcome is known.
--
-- The parts and their files, by the paths of the repository:
-- Prelude: shared names, Python's integers (Int), texts and sorting, exceptions as values (Errors).
-- Float: the interface to Python's floats, with the laws of IEEE 754 that proofs rely on in
-- Float/Order, as hypotheses, and in Float/Fixed a value of the interface for examples.
-- Core: the pure functions of src/stakeroute/core. Types and Types/Clamp: types.py; Scoring:
-- scoring.py; Independence: independence.py; Market: market.py; Ranking: ranking.py; Settlement:
-- settlement.py, with Decimal for what it uses of the module `decimal`; Reputation: reputation.py;
-- Baselines: baselines.py; Attack and Attack/Cost: attack.py.
-- Storage: src/stakeroute/storage. Rows has the tables of schema.sql as records of a database
-- `Db`, Tables the SQL statements on lists, Repository the methods of `Repository`, with the
-- primary keys, unique pairs and references that SQLite enforces, and NOT NULL for floats; Queries and
-- Reset are the rest of that class. Ledger and Ledger/Gains are about the agents' credits.
-- Worker: src/stakeroute/worker. Messages are the payloads; Forecasts is
-- `handle_forecast_created` and Consume the loop of main.py; Runner is settlement_runner.py;
-- Pipeline is `run_ranking_pass` and Updates `publish_hypothesis_updates` of pipeline.py; System is
-- the worker as a relation between databases, one commit a step; Process is run_worker.py, its
-- start and one round of its loop, Process/Life many rounds with restarts between, Process/Sends
-- what a round publishes, and Process/Seeded the agents that the start stores. The
-- handlers call the repository and the core as the code does; the database is passed from one
-- statement to the next.
-- Transport: src/stakeroute/transport. Memory is memory.py.
-- Metrics: src/stakeroute/metrics.py. Analysis: `build_report` of
-- src/stakeroute/analysis/cost_of_attack.py. Dashboard: the read endpoints of
-- src/stakeroute/dashboard/main.py. Simulator, with Simulator/Stress: agents.py, scenarios.py and
-- stress.py of src/stakeroute/simulator, with the pseudo-random generator as a parameter.
-- Tests: runs at concrete inputs.
--
-- A function that can raise returns a `Result`; an exception in a handler ends the run of the
-- consume loop, and what was not committed is lost. Lists stand for tables and sequences, in the
-- order of row ids. `sorted` is a stable insertion sort, which gives the list that Python's sort
-- gives. All loops are structural recursion on lists and counts, or on fuel: in `excess`, below, and
-- in `show`, the decimal digits of a number, with one more than the number, which is more than it
-- has digits.
--
-- Bounds: integers are unbounded, as Python's are. Of SQLite's 64-bit limit only that on the stake of
-- a rejected forecast is modelled; times and credits are taken to fit. `sqlite3` binds a NaN as NULL,
-- which the columns of forecasts, rejections, decisions and settlements refuse here; a reputation that
-- is updated is that of a settlement stored before, and the floats of agents and hypotheses are
-- constants of the program, so that these columns are not checked.
-- The product of a stake and a rounded improvement is rounded to the 28 digits of decimal's context,
-- with the coefficient itself as fuel for the count of its digits, which Core/Decimal/Context shows to
-- be enough; `quantize` raises from 28 digits on. The scale of a settlement is a power of ten.
--
-- Not modelled: the dashboard's scenario endpoints and web server, the simulator's process and the
-- rendering of the attack report, which are input and output around these parts; the NATS client;
-- SHA-256, which is a parameter. Columns that nothing here reads (the name and creation time of a
-- tenant, and of clusters and rows surrogate ids) are left out.
pub mod Prelude
pub mod Float
pub mod Core
pub mod Storage
pub mod Simulator
pub mod Worker
pub mod Metrics
pub mod Analysis
pub mod Dashboard
pub mod Transport
pub mod Tests

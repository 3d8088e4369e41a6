-- ===== src/Lib.antt =====
-- MyloWare runs video workflows: a run goes through a graph of steps, waits at gates for a human, is
-- driven by jobs that workers claim from a table, calls services that may fail, and asks a safety
-- shield about what it reads and writes. This library models the parts that decide what becomes of a
-- run, and of the jobs, calls and texts around it.
--
-- The parts, and the code of the repository that each file is about:
--   * Storage/Jobs: the job table, `JobRepository` and `Job` of src/myloware/storage/repositories.py
--     and src/myloware/storage/models.py. `enqueue`, `claim_postgres`, `claim_portable` (the branches
--     of `claim_next_async`), `touch_lease`, `mark_succeeded` and `mark_failed` are the async methods;
--     Storage/Jobs/Trace runs them in any order, by any number of workers.
--   * Storage/Runs, Storage/Artifacts, Storage/DeadLetters: the other repositories of those files.
--     Storage/Artifacts/Cache has `find_cached_videos`, and `check_video_cache` of
--     src/myloware/workflows/helpers.py; Storage/Artifacts/SoraTasks finds the run of a video task.
--   * Storage/Chats, Storage/AuditLogs, Storage/Feedback: the tables of chat sessions, of audit rows
--     and of feedback, in the same files.
--   * Workers: `_process_one_job`, `_lease_heartbeat` and the turns of `run_worker` in
--     src/myloware/workers/worker.py, over the tables of the database. Workers/Session is the database
--     session of a handler, with its commits and its failed flushes; Workers/Handlers are the branches
--     of `handle_job` in src/myloware/workers/handlers.py; Workers/JobTypes is
--     src/myloware/workers/job_types.py.
--   * Workflow/Graph: the routes and the edges of src/myloware/workflows/langgraph/graph.py.
--   * Workflow/Hitl: `approve_gate` and `reject_gate` of src/myloware/workflows/hitl.py, over runs,
--     artifacts and audit rows.
--   * Workflow/Replay: src/myloware/workflows/dlq_replay.py, which reads the letters that the worker
--     writes.
--   * Workflow/Clips: src/myloware/workflows/langgraph/utils.py, the clips of a run and their urls.
--     Workflow/Resume: src/myloware/workflows/langgraph/resume.py, and `resume_hitl_gate` of
--     src/myloware/workflows/langgraph/hitl.py; Workers/Handlers/Dispatch/Resumes puts them behind the
--     handlers of jobs.
--   * Workflow/Validators: src/myloware/workflows/validators.py, the checks of objects that a project's
--     configuration names.
--   * Workflow/Overlays: `extract_overlays_aismr` of src/myloware/workflows/parsers.py, and
--     `_aismr_extractor` of src/myloware/workflows/extractors.py.
--   * Workflow/Cleanup: src/myloware/workflows/cleanup.py, which times out runs that wait too long.
--   * Resilience/Breaker: src/myloware/resilience/circuit_breaker.py. Resilience/Retry: the two retry
--     helpers, src/myloware/workflows/retry.py and src/myloware/workflows/retry_async.py.
--   * Config/ProviderModes: src/myloware/config/provider_modes.py, which the safety checks ask.
--   * Safety/Shields and Safety/Cache: src/myloware/safety/shields.py and
--     src/myloware/workflows/langgraph/safety_cache.py.
--   * Common: what these share. Tests: concrete inputs.
--
-- How it is modelled. A table is the list of its rows in insertion order, a statement addresses rows
-- by its WHERE clause, and each repository call is a function from the table to the new table, with
-- the clock's reading as an argument. Ids are numbers, and so are times, delays and chat ids. A method
-- and its async copy are one definition. A JSON column is a value of Common/Json; its numbers are
-- natural numbers. Where Python raises, the result says so: `none`, a constructor, or the left side of
-- a sum. Log lines, telemetry and notices change no state and are left out.
--
-- Of the constraints of the database the unique indexes of the jobs are modelled, not foreign keys,
-- and not the unique tokens of public runs. A rollback that ends a transaction expires the objects of
-- the session: Workers/Process models what that does to a failing job.
--
-- Where the order of rows that tie is open in SQL, the model takes the first row. `updated_at` is
-- written by every statement on a row, also where no column changes its value. `str.lower` is modelled
-- for characters whose lower case is ASCII. That is exact where a text is compared with a word of the
-- program, which is ASCII, and for the topics of clips as far as they are ASCII.
--
-- Bounds and fuel. Numbers are unbounded, as in Python; delays are natural numbers, where Python
-- has floats, so that the OverflowError of a large power is not modelled. The loop of
-- `retry_async` runs on the fuel `attempts + 1`, and the loop that repeats cached urls on
-- `required` rounds; both are enough, as the theorems about them show. All other loops are over
-- lists.
--
-- Parameters: what the services and the engine behind a job's handler do, whether a call of a
-- service succeeds, the shield, SHA-256, the jitter, `json.loads`, `int` of a text, the decimal
-- text of a number, `urlparse`, how a list is printed, LIKE, `str.lower` where topics are counted,
-- what the graph's engine shows, and what it makes of the tables.
--
-- Not modelled: the HTTP API and the command line, the nodes of the graph and its engine, agents,
-- tools, knowledge, memory and telemetry, the parsers that search texts by regular expressions,
-- the render and transcode services. They are I/O, or calls of libraries, around the parts above.
pub mod Common
pub mod Storage
pub mod Resilience
pub mod Workers
pub mod Config
pub mod Safety
pub mod Workflow
pub mod Tests

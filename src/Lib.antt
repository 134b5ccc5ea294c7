-- ===== src/Lib.antt =====
-- The core of the ompire daemon (daemon/src/ompire_daemon): what a task's workflow may do next, and
-- the journal that permits the effects it publishes.
--
-- The parts and how they meet. A workflow document is parsed, validated once and pinned to a task.
-- The engine runs it: each finished attempt names the next step, `_open` bounds that step by the
-- document's visit budgets, freezes the evidence it reads, and appends an attempt to the history.
-- Decisions evaluate predicates over that history. A step that works in the task's clone holds its
-- workspace through the guard, which keeps reviews, deliveries and cleanup apart from it and from
-- each other. A delivery step asks the delivery registry for an action; the registry admits it only
-- under a recorded authorization, and keeps its outcome.
--
-- Files:
--   Base, with children: lists and numbers as the models use them, `Result` for code that
--     raises, and the lemmas that the components share; Base/Int holds the integers.
--   Json: JSON data as Python reads it.
--   Ships, with children: registry/ships.py. Rows has the records and enumerations, Tables the
--     state `Db` and its readers and row writers, Authority the functions that grant
--     (open_delivery to append_decision), Attempts those of the actions (prepare_action to
--     resolve_action), Candidates and Purge the rest. The other children are proofs: Versions,
--     Writes (the common shape of a write), Grants, Conflicts, Endings, Retries, Journal, Single,
--     Updates, Steps (runs of calls), Started, Remaining, Purged.
--   Workflow, with children: Syntax is the typed document of workflow_definitions.py;
--     References, Graph and Delivery its validation; History the attempts and their evidence;
--     Values, Equal and Predicates its evaluation; Engine and Decisions the routing of
--     workflows.py. Proofs are in Acyclic, Cycles, Escapes, Visits, Edges, Entries, Grants, Captures,
--     CaptureEntries, Kleene, Routes and Frozen.
--   Workflow/Parse and Workflow/Print, with children: the readers of workflow_definitions.py
--     (`_primitive_definition_from_document` and what it calls) and its canonical document.
--     Workflow/Reload has the laws between them, Workflow/Settled the fuel that the readers need,
--     and Workflow/Accepted what a definition that was read keeps to.
--   Isolation, with children: isolation/guard.py. Guard has the state of WorkspaceGuard and its
--     operations; Ledger the abstract view, the claims that are open; Steps what the writers do,
--     as a step relation. Proofs are in Closing, Displacing, Admission, Exclusion, Promises, Freed
--     and Brackets.
--   Isolation/Tests, Workflow/Reload/Tests, Ships/Tests and Workflow/Tests: runs on concrete
--     data; Workflow/Samples has the documents.
--
-- State. The tables of the delivery registry are lists of rows in the order of their keys, in one
-- record `Db`; a transaction is a function on it, so a call that raises leaves the state as it
-- was. A time is an argument. Enumerations stored as text are read by a parser that may fail, as
-- in the code; a disposition and an operator's decision, which the code takes as texts and does
-- not check, range over the texts in use, and the unique indices of the tables are not modelled.
-- The history of a task is the list of the attempts at its steps in the order of their numbers,
-- each with its number, step, status, outcome and evidence; its kind, session and other columns
-- are left out. A dictionary is a list of entries, and in the guard a function; where keys are
-- unique by an earlier check, the comment says so.
--
-- The guard keeps no record of contexts; the context of a call is an argument, and the steps of the
-- writers say from which contexts they come: a new claim is made outside the task's hold, and under
-- a name that no open claim on the task has, as the daemon's constant names and its one run per
-- task give.
--
-- Fuel. `walk` recurses on the depth that is left and starts one above the number of names; `reach`
-- pops the stack at most once for the start and once for each declared exit, and starts there;
-- `bounded_loop` leaves a step at most once and starts one above the number of steps. The results
-- below show that these three do not run out, under the conditions stated there. The readers of
-- values, predicates and texts recurse on the depth that is left, which `read_definition` passes on;
-- how much of it they need is the subject of Workflow/Settled. The rounding of an integer timeout to a
-- float shifts it by 1100 at most, and a number that needs more is too large for a float.
--
-- Not modelled: the YAML parser, format 5's composition of reusable steps, texts of error messages
-- and their locations in a document, rendering of prompts, gates and their answers, pausing and
-- recovery of a run, and the parts of the daemon around these (processes, git, gpg and gh, HTTP,
-- notifications). Floating-point numbers are taken as finite dyadic fractions. Concurrency of the
-- registry is what its reserved transactions leave: one call after the other.
pub mod Base
pub mod Isolation
pub mod Json
pub mod Ships
pub mod Workflow

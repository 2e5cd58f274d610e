-- ===== src/Lib.antt =====
-- Adaptive Harness: the core that decides what an agent may run on a task and when the task is
-- complete. A task is bound by an envelope (its repository, base commit, worktree, requirements,
-- acceptances, allowed paths and capabilities). The store keeps, for each task, the revisions of its
-- envelope and a numbered history of events. The gateway authorizes one command of a declared
-- capability and records that. The executor checks the authorization against the record, runs the
-- command under limits and records a start and a finish event. The verifier reads the record, the
-- workspace, the diff and the artifacts, and completes the task, accepts it with a stated risk, or
-- rejects it. All four act on the same records through the store's operations. Beside them, optional
-- modules are enabled and tried through a lock file, whose reviewed changes reach the repository by a
-- transaction that can be recovered.
--
-- The files, and the code that they model:
-- - Prelude: shared names, lists, texts, integers, and results; Prelude/Results has a constructor of
--   `Error` for each exception class of the core.
-- - Paths: `PurePosixPath`, as the core uses it. Json: event data, with Python's `==` (`value_eq`) and
--   `dict.get` (`get`, with null for a missing key).
-- - Envelope (src/adaptive_harness/core/envelope.py): Envelope/Defs are the records, Envelope/Checks
--   each `__post_init__`, Envelope/Amend `TaskEnvelope.amend`; Envelope/Monotone has the proofs.
-- - Store (src/adaptive_harness/core/store.py): Store/Defs are the records, Store/Checks what their
--   constructors check, Store/Operations `TaskStore`: `load`, `create`, `amend`, `cancel`,
--   `append_event`, `finalize`. The tasks directory is a function from task ids to files, which each
--   operation takes and returns; one that raises leaves it as it was, as the write is its last step.
--   Store/Traces is about sequences of calls.
-- - Gateway (src/adaptive_harness/core/gateway.py): Gateway/Defs, Gateway/Checks (constructors), and
--   Gateway/Authorize (`CapabilityGateway.authorize` and all that it calls).
-- - Executor (src/adaptive_harness/core/executor.py): Executor/Validate, Executor/Capture (`_capture`),
--   Executor/Output (redaction and limits), Executor/Sandbox (`_sandbox_command`), Executor/Execute
--   (`execute`, `_run`, `_finish`, the artifact directory). `execute` returns the world it leaves beside
--   its result: the start event stays written when the run raises.
-- - Verifier (src/adaptive_harness/core/verifier.py): Verifier/Checks (the checks of the task),
--   Verifier/Acceptance (`_verify_acceptance`), Verifier/Verify (`verify`, the outcome).
-- - Init (src/adaptive_harness/init/transaction.py): `RepositoryTransaction`, through which reviewed
--   changes reach the repository. Init/Io has operations on files that may fail or at which the process
--   may die, Init/Journal the changes and the journal, Init/Transaction `apply`, `recover` and all that
--   they call. The proofs are by the rules of Init/Hoare: Init/Validating, Init/Staging,
--   Init/Committing and Init/Restoring are about the parts, Init/Applying and Init/Atomic about the
--   whole.
-- - Modules (src/adaptive_harness/modules/): Modules/Defs are the records, Modules/Registry the builtin
--   manifests, Modules/Activation `decide_activation` and the decisions over all modules, Modules/Lock
--   what each operation does to the module lock's object, Modules/Manager `ModuleManager`: reading the
--   lock, and planning the change of its file, which a repository transaction applies.
-- - Service (src/adaptive_harness/core/task_service.py): `TaskService`. Service/Places is the choice
--   between the two stores (`_store_for`), Service/Approvals an approval as the data of its event,
--   Service/Declarations the JSON of a capability (core/gateway.py) and the loading of declared ones
--   (schemas/__init__.py) from a document of the form that init/initializer.py writes,
--   Service/Runs `plan_approval`, `grant_approval`, `run_capability` and `verify`, Service/Tasks
--   `start` and `amend` with Service/Requests, Service/Planned what `start` plans; `start` and `run_capability` return what they leave
--   beside their result.
-- - Tests: one small task from creation to completion, a transaction and a trial of a module, and the
--   theorems applied to them.
--
-- Parameters stand for what is outside the core: `digest` for the SHA-256 of a record's canonical
-- JSON, `codec` for UTF-8, `isalnum` for the Unicode test, `resolve` for `Path.resolve`, and the
-- records `Host` and `Facts` for what one call observes of the operating system: the workspace and the
-- diff, the lock on the lease file, the file system, the process and the clock. The workspace lease is
-- the one bit that the lock is free; both readings of the record, before and under the lease, are
-- arguments, so that another process may have written in between. For a transaction, `fate` says of each
-- operation whether it works, fails or is where the process dies, and `Format` is JSON and base64; for
-- the modules, `LockFormat` is JSON with the lock's schema, and `ModuleHost` the SHA-256 of a manifest
-- and the manifests that files hold. `conforms` is jsonschema's validator of the packaged capabilities
-- schema.
--
-- Bounds and fuel: revisions and event numbers are natural numbers; exit codes, timeouts and limits
-- are integers, as Python's are unbounded. The capture loop runs over the rounds that it is given,
-- since the operating system decides when the pipes are closed. The search for the worktree's root has
-- as fuel the number of parts of the path, one of which each step drops; the decimal text of a number
-- n has the fuel n + 1, as each step divides by ten.
--
-- Not modelled: the JSON text of a record and the decoding of its fields (`to_dict`, `from_dict`); the
-- check in `append_event` and `finalize` that data can be written as JSON, since data here always can;
-- failures of the file system while the store writes; the signals that terminate a process and its
-- environment; directories and temporary files of a transaction; the JSON of manifests and locks, and
-- the runner of executable modules; the planning of the first files and the doctor; the locks of the
-- task service, its choice of directories and its configuration file; the text of a plan's diff; the
-- workspace probe, storage, upgrade, distribution, feedback, configuration, adapters, scanners and the
-- command line.
pub mod Prelude
pub mod Paths
pub mod Json
pub mod Envelope
pub mod Store
pub mod Gateway
pub mod Executor
pub mod Verifier
pub mod Init
pub mod Modules
pub mod Service
pub mod Tests

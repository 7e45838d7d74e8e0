-- ===== src/Lib.antt =====
-- The sandbox platform: a server that gives each user containers with a writable overlay, and keeps
-- their snapshots, mounts, quotas, accounts and terminal tickets in a database.
--
-- The parts and how they interact. A request carries an access token or an API key, which the guard
-- (src/auth/middleware.ts) turns into claims against the user's row. The container service
-- (src/services/container.service.ts) asks the quota service (src/services/quota.service.ts) before
-- it provisions, works on the container's rows, and calls an executor for the instance itself.
-- Logins, refresh tokens and passwords are src/services/auth.service.ts over user.service.ts; a
-- terminal connection is let in by a one-time ticket of src/services/pty-tickets.ts.
--
-- The files.
--   Prelude: library names passed on, the tests on numbers, and the lemmas on lists, which are the
--     queries and updates of a table.
--   Action: src/utils/errors.ts, and what an async method is: a function from a state to an outcome
--     and a state. What was written before a throw stays written, as no method opens a transaction.
--   Db: the tables of src/db/migrations/0001_baseline.ts and 0004_container_mounts.ts; Db.Rows has
--     the rows with the columns of the source, Db.Queries the look-ups and counts.
--   World: the database with the state of the outside world.
--   Quota: quota.service.ts; Quota.Admission has what the checks let through.
--   Containers: container.service.ts, handleFromRow and persistRunningState of
--     src/executors/types.ts, and resolveImagePath of src/services/image.service.ts. Host has what
--     the service calls, Mounts the ownership checks and the input and output mounts, Create the
--     creation, Lifecycle start, stop, destroy and the restores, Snapshots the rest. Proofs:
--     Reads (what leaves the database alone), Restoring, Writes (start, stop, destroy and
--     restoreSnapshot as chains of writes), Creation (the three ends of create), Capacity,
--     Invariants, Isolation, Ownership, States.
--   Accounts: Vault (what the services call, with src/auth/jwt.ts decodeExpiry and
--     src/auth/password.ts), Users, Auth, ApiKeys, Guard. Proofs: Sessions (families of refresh
--     tokens), Login, Keys, Gate.
--   Workspaces: create, update and delete of src/services/workspace.service.ts, with Creation and
--     Deletion.
--   PtyTickets: pty-tickets.ts, with SingleUse and Limit.
--   ContainerLock: src/services/container-lock.ts, its chain of promises as a heap of jobs with the
--     map of the last one. Steps is the event loop, as a relation; Invariant, Queue and Draining are
--     the proofs.
--   AuditLog: src/services/log.service.ts and the purge of the reaper; calls of record
--     may overlap. Integrity is the chain of hashes, Races what overlapping calls make of it.
--   Reaper: src/scheduler/reaper.ts over the container service, with Frame, Sweep and Tick.
--   Storage: src/services/workspace-storage.ts and src/services/container-mounts.ts. Paths and
--     Containment are resolveInWorkspace; Tree the walks, with Walks; Names the staging directory,
--     with Staging; Uploads the upload sessions, with Accounting.
--   Executors: Quoting is src/executors/shell-quote.ts and the commands of
--     src/executors/ssh-executor.ts, Shell how a shell splits a simple command, Arguments, Commands
--     and ExecCommands what comes of it; Choice is src/executors/factory.ts and safe-env.ts.
--     Apptainer is the life of an instance in src/executors/apptainer-cli-executor.ts, with Swap, and
--     Collect its child processes, with Caps.
--   Images: src/services/image.service.ts, with Catalogue.
--   Llm: src/services/llm.service.ts, its rows; Gateway is src/services/agentgateway.client.ts, Keys
--     and Bindings the methods; proofs: Bound, Lifecycle, Secrets, Terms.
--   Terminal: src/routes/pty.ts. Terminal itself is one connection as a machine over its callbacks,
--     Server all of them with the count per container, Upgrade who is let in; proofs: Accounting,
--     Slots, Entry. Containers.Sessions records the connections.
--   Tools: src/services/tools.service.ts, Files the tools on one file, Search find and grep, Walk
--     walkFiles, Glob globMatches; Truncate is src/utils/truncate.ts. Proofs: Termination,
--     Preservation, Limits, Output, Editing.
--   Settings: src/services/runtime-settings.ts, with Cap.
--   Tests: a small platform on which each result that has a hypothesis is applied.
--
-- A method of a service is a definition with the method's name in the spelling of this language
-- (assertCanCreate is assert_can_create, _restoreFromSnapshot is restore_from_snapshot); the
-- private steps of a long method have names of their own. A method that runs under
-- withContainerLock is one action: nothing comes between its steps, as the results of ContainerLock
-- allow for methods on one container. Where the walk over a text matters it is a list of code points.
--
-- Parameters. The executor, the storage of mounts, the LLM hook and node's path functions are fields
-- of Host; bcrypt, SHA-256, the JWT library, the random source and the password configuration are
-- fields of Vault. The results hold for every value of them, errors included; where the next
-- family of tokens must be a new one, HasFreshFamily says so.
--
-- Numbers are naturals, unbounded: the columns are integers that the source never makes negative, but
-- for max_budget, NUMERIC(12,6), which is counted in millionths; and no sum reaches the bounds of a
-- double. Each table has its rows in the order of their ids, and the next id. Every loop is
-- structural recursion on a list or a tree, and the one that tries names for a staging entry has
-- the bound that the code sets it; but walkFiles, which an executor may lead anywhere, runs on fuel:
-- enough is as much as there are directories within the limit of depth.
--
-- A method is one action where it is said so: of the calls that its awaits let run in between, those
-- of withContainerLock, of record in the audit log and of the terminals are modelled. issueKey of
-- the LLM service awaits the gateway between its look at the binding and its insert, and is one
-- action here.
--
-- Not modelled. The routes but for the terminal's, the configuration and the OIDC service, which are
-- calls of the network, of processes or of files; of the executors the connections, the mock, the
-- snapshots of the Apptainer one, and the commands that are more than one simple command. The
-- listings, which only read, but for those of the audit log and the images. The deletion of a user with its cascade. Of the workspace
-- files the checks on symbolic links along a path, move and the tree listing. Messages and details
-- of errors, created_at and updated_at but for the audit log's. A write that the database refuses
-- for another reason than a UNIQUE constraint on snapshots or API keys, the mounts that refer to a
-- workspace, or an unknown user in the audit log.
pub mod Prelude
pub mod Action
pub mod Db
pub mod World
pub mod Accounts
pub mod PtyTickets
pub mod Tests
pub mod Workspaces
pub mod Quota
pub mod AuditLog
pub mod ContainerLock
pub mod Reaper
pub mod Storage
pub mod Executors
pub mod Images
pub mod Llm
pub mod Settings
pub mod Terminal
pub mod Tools
pub mod Containers

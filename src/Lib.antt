-- ===== src/Lib.antt =====
-- A model of DRISHTI HyperShift, the service that moves virtual machines from VMware to Proxmox, and of
-- what keeps a move safe: no duplicate of a running machine, no change of a platform that nobody
-- approved.
--
-- The program's parts and how they interact. A plan is created as a draft (backend/internal/api), is
-- checked against the source machine and the target node (backend/internal/preflight), is approved, and
-- is executed by the job engine (backend/internal/job), which calls the adapters of the two platforms
-- (backend/internal/platform), the disk converter and the stores. The target then runs isolated. After a
-- validation (backend/internal/validation) an operator cuts over to the production network, or rolls back
-- (backend/internal/cutover). Where both ends are Proxmox, the platform runs the move as its own task,
-- which the engine follows.
--
-- The files, with the code that each models:
--   Base, with its children: the names that all parts share. An action that changes a state and may fail
--     is a function from the state to a result and a state (Base/Effects); what was changed before an
--     error stays changed. Errors and formatted texts are kept as their format and arguments
--     (Base/Errors). Base/Hoare has the invariants that actions keep, Base/Triples their postconditions.
--   Domain, with Domain/Inventory, Domain/Plans, Domain/Jobs: the types of
--     backend/internal/domain/models.go. An `int` or `int64` is an integer ℤ, and where a subtraction
--     could wrap around it is written with the wrap-around. A time is a natural number.
--   Platform: the interfaces of backend/internal/platform/adapters.go, records of operations on an
--     outside state. Platform/Traced: any adapters, with a log of the calls that reach them.
--   Preflight, with Preflight/Checks: `Run` and the eight checks of backend/internal/preflight/engine.go.
--     Preflight/Verdict: what its verdict says.
--   Remediation: backend/internal/remediation/remediation.go. Validation:
--     backend/internal/validation/validation.go.
--   Cutover: `Cutover` and `Rollback` of backend/internal/cutover/cutover.go, with their order and outcome
--     in Cutover/Interlocks and Cutover/Rollbacks.
--   Stores, with Stores/JobStore, Stores/PlanStore, Stores/AuditStore: `State` of
--     backend/internal/job/engine.go, `PlanStore` of backend/internal/api/inventory.go and `AuditStore` of
--     backend/internal/api/audit.go, each with a database as an argument, or in memory.
--   Engine: the job engine of backend/internal/job/engine.go. Engine/Steps is `runStep`, Engine/Disks the
--     functions of the steps, Engine/Execute `ExecutePlan`, Engine/External the tasks of Proxmox. The
--     proofs are in Engine/StepLaws, Engine/Completion, Engine/Outcome and Engine/Migrated (the steps of a
--     job), in Engine/Failures, in Engine/Calls (the calls that reach a platform) and in Engine/ExternalLaws.
--   Api: the handlers. Api/Plans is backend/internal/api/inventory.go; Api/Adapters, Api/Approvals,
--     Api/Executions and Api/Finishing are backend/internal/api/migration.go. Api/Locks and Api/Gates say
--     what a request needs before it changes anything.
--   Mock: backend/internal/platform/mockplatform/adapters.go. Mock/Platforms is the mock source and
--     Mock/Targets the mock target and the factory, both as instances of the interfaces of Platform.
--     Mock/Machines specifies the target as a registry of machines; Mock/Refinement and Mock/Boots have
--     the proofs.
--   Proxmox: backend/internal/platform/proxmox/migration.go. Proxmox/Maps has its searches and checks,
--     Proxmox/Remote `RemotePreflight`, Proxmox/Start `StartRemoteMigration`, and Proxmox/Wait
--     `WaitRemoteMigration` and `VerifyRemoteMigration`. The proofs are in Proxmox/Located,
--     Proxmox/Conditions, Proxmox/Checked, Proxmox/Planned, Proxmox/Started and Proxmox/Waiting. The
--     client of a platform is an argument.
--   Auth: backend/internal/auth. Auth/Users is the memory store of users, Auth/Sessions the logins and
--     sessions, Auth/Requests the check of a request and the handlers of a session, Auth/Handlers the
--     administration of users. The proofs are in Auth/Lifetimes, Auth/Guards, Auth/Lockout,
--     Auth/Admins and Auth/Changes. bcrypt, SHA-256, the random source and the clock are arguments.
--   Access, with Access/Duties: backend/internal/rbac/rbac.go and backend/internal/server/auth_routes.go.
--   Worker, with Worker/Commands: the commands of the conversion worker,
--     worker/internal/cmdsafelist/safelist.go and worker/internal/runner/runner.go.
--   Conversion: the worker's service. Conversion/Paths and Conversion/Service are
--     worker/internal/conversion/service.go and http.go, Conversion/Settings is
--     worker/internal/config/config.go with the size cap. The proofs are in Conversion/Contained and
--     Conversion/Conversions. The file system is an argument.
--   Connections: Connections/Registry is backend/internal/mock/inventory.go and
--     backend/internal/credential/memory.go, Connections/Requests the handlers of
--     backend/internal/api/connections.go that change them. The proofs are in Connections/Consistent,
--     Connections/Served and Connections/Histories. A request is answered before the next one: the gap
--     between the two locks of `Add` is not in the model.
--   Migrations, with Migrations/Recorded: backend/internal/store/migrate.go.
--   Safety, with Safety/Denials: backend/internal/safety/mutations.go; the functions of `strings`,
--     `net/url` and `net` that it calls are arguments.
--   Fixtures and the modules named Examples: concrete inputs, and the theorems at them.
--
-- The state. `World` holds the memory stores and an outside state of any type, which stands for the
-- platforms, the database, the disks and the clock; the adapters, the converter, the decoder of requests
-- and the clock are arguments with any behaviour, failures included. An execution also holds the job that
-- the code changes in place (`Run`). Every loop of the code but one runs over a list, so its function is
-- structural. The wait for a task of Proxmox polls until the task has stopped: it runs on fuel, and a fuel
-- of one more than the ticks that the task has left is enough.
--
-- Not modelled. The mutexes: an operation that holds one is one action. The background task that follows a
-- Proxmox migration is an action of its own (`watch`). The frontend, the wiring of the process, logging
-- and the SQL of the database are left out, since they compute nothing that the parts above rely on; so
-- are, in this version, the configuration of the backend, the handlers that only read the
-- connections, and the real adapters of VMware and of the Proxmox API.
pub mod Base
pub mod Domain
pub mod Fixtures
pub mod Platform
pub mod Preflight
pub mod Remediation
pub mod Validation
pub mod Cutover
pub mod Stores
pub mod Engine
pub mod Api
pub mod Access
pub mod Worker
pub mod Safety
pub mod Auth
pub mod Proxmox
pub mod Mock
pub mod Conversion
pub mod Connections
pub mod Migrations

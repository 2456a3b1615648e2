-- ===== src/Lib.antt =====
-- A verification library for the worker of Digital-ocean-bot (Go): a service that keeps droplets
-- running at DigitalOcean for its accounts, installs a panel on each and replaces it in time.
--
-- The parts, from the provider up. Every mutation of the provider goes through the executor, which
-- first reserves an idempotency key in the ledger of operations; a deployment's workflow calls the
-- executor, the waiter and the provisioner as steps behind stored checkpoints; the scheduler starts
-- deployments, and the lifecycle retires droplets through the executor again. The worker recovers
-- what was interrupted, round after round. The network package says which route an account may use,
-- the app package which exit address a proxied account keeps, and the traffic guard which client is
-- disabled. The administration creates accounts behind a login.
--   Resilience    internal/resilience: Policy.Delay, Circuit, Retrier.Do
--   Jobs          internal/jobs: Operation, and SQLStore.Reserve, Get and Update on the operations
--   DigitalOcean  internal/providers/digitalocean: its data, ClassifyError, IsCapacityError
--   Droplets      internal/droplets: Executor.Create and Delete, Reconciler, LifecycleStore,
--                 LifecycleEngine.Process
--   Workflow      internal/workflow: Engine.Run (Engine), RuntimeSteps (Runtime),
--                 DigitalOceanWaiter.Wait (Waiter), SQLStore and ProfileStore (Table, with the
--                 abstract map in Table/Spec)
--   Provisioning  internal/provisioning: Engine.Execute (Engine), SQLStore (Store)
--   Scheduler     internal/scheduler: Plan (Planner), LeaseStore and SQLStore (Store),
--                 Engine.RunDue (Engine)
--   Network       internal/network: ValidateRoute, AllowMutation (Route), HealthState.Apply
--                 (Health), PrivacyTransport and MetadataTransport (Headers), leak checks, probes
--                 and EgressGuard (Leak)
--   App           internal/app: recovery.go (Recovery), proxy_provider.go (Proxy), repository.go
--                 (Repository), sticky_proxy.go (Sticky: what is observed, the rows, the
--                 configuration, the rotation, and MaintainStickyIdentity in Sticky/Maintain),
--                 deploy.go (Deploy), lifecycle.go (Lifecycle), orphan_reconcile.go (Orphans)
--   Accounts      internal/accounts: Context, CellManager
--   Worker        internal/worker: Worker.Once and LifecycleWorker.Once, RecoveryStore (Store)
--   Auth          internal/auth and internal/adminapi/auth.go: Login, Authenticate, the middleware
--   AdminApi      internal/adminapi: createAccount of accounts_write.go (Accounts), createProxy and
--                 assignProxy of proxies_write.go (Proxies)
--   TrafficGuard  internal/trafficguard: Analyze (Detector), Engine.Check (Engine)
--   Errors, Sql, Text and Prelude are shared: the error values, the statements of PostgreSQL, the
--   texts of strings and strconv, lists and integers over the native numbers. Examples holds the
--   theorems at concrete inputs.
--
-- State is passed explicitly. A store is a record of its table and a connection, each statement of
-- which may fail by a function of its number, so that a theorem for every such function covers
-- every pattern of failures. The engines that the code writes over interfaces are written over
-- records of functions on a world W, and their theorems hold for all of these that meet the named
-- hypotheses. What the provider, a proxy, an address service or a host answers is a function of the
-- requests or the calls before it; hashes and random tokens are functions too. Rows are updated one
-- statement at a time, as the code does: what two processes do between two statements of a third is
-- modelled for the ledger and the deployments only, whose histories are sequences of single store
-- calls; a history of Execute, of the lifecycle engine or of the orphans' reconciling is a sequence
-- of whole calls.
--
-- An int64 that the code computes with wraps by `wrap64`, and counters are natural numbers. A time
-- is its nanoseconds. float64 is an interface of which nothing is assumed. Loops are structural,
-- but for the retrier, whose fuel is the policy's number of attempts, and the waiter, whose fuel
-- is the number of attempts until its deadline ends it.
--
-- Not modelled: HTTP, JSON, SSH, TLS, cryptography and the clock's ticking, which are input and
-- output; of internal/app the wiring of the packages, the refreshing of snapshots and the repairs of
-- local state; of internal/adminapi all handlers but those named above; the panel's
-- client, the registry of resources, logging and the browser's audit.
pub mod Prelude
pub mod Errors
pub mod Sql
pub mod Text
pub mod Resilience
pub mod Jobs
pub mod DigitalOcean
pub mod Droplets
pub mod Workflow
pub mod Network
pub mod Provisioning
pub mod Scheduler
pub mod TrafficGuard
pub mod App
pub mod Accounts
pub mod Worker
pub mod Auth
pub mod AdminApi
mod Examples

-- ===== src/Lib.antt =====
-- openshift-upgrade-controller schedules and runs the upgrades of an OpenShift cluster. An UpgradeConfig
-- says when; its controller creates an UpgradeJob for a run of the schedule, pinned to the latest
-- available version. The controller of the jobs takes a job through its life: it waits for its start,
-- runs the jobs of hooks at each event, locks the cluster version, pauses machine config pools, checks
-- the health of the cluster, asks for the version, waits for it, and unpauses, unlocks and cleans up.
-- Beside it, a managed ClusterVersion is written over the one of OpenShift, with overlays that begin at
-- an instant; a NodeForceDrain deletes the pods that keep a node from draining; the status of a
-- suspension window names what it suspends; a webhook tries the job template of a hook; and collectors
-- report all of it as metrics.
--
-- The files and the code that they model:
--   Api           api/v1beta1: the types of jobs, configs, hooks, windows, managed versions and node
--                 drains, with Claim; instants (Time), durations with the wrap-around of an int64
--                 (Duration), and the types of Kubernetes and OpenShift that the code reads (Upstream).
--   Exec          the effects. A method that talks to the API server is an action: it takes the requests
--                 that were sent before, and gives its result or its error and the requests sent by
--                 then, newest first. The server and the clock are functions of these requests, so a
--                 theorem covers every answer, failures and changes by others among them. Exec/Triple
--                 has the rules by which a predicate on the requests is shown to be kept.
--   Schedule      pkg/schedule. The cron schedule and the ISO week are parameters.
--   HealthCheck   pkg/healthcheck, and filterPaused of the job's controller.
--   ClusterVersion  pkg/clusterversion. The order of versions is a parameter; Equal has
--                 SpecEqualIgnoringDesiredUpdate.
--   UpgradeJob    controllers/upgradejob_controller.go. Reconcile (Reconcile), reconcileStartedJob
--                 (Started), executeHooks (Hooks) with the jobs it creates (HookJob, Environment),
--                 trackHookJobs (Track), pauseUnpauseMachineConfigPools and
--                 cleanupMachineConfigPools (Pools), pauseMachinePoolsOnFailure (Failure), the lock on
--                 the cluster version (Lock), runHealthCheck (Health), suspension windows (Window),
--                 nextTimedReconcile (Requeue) and conditions (Status). Consistent has what is kept by
--                 each part, Safety what follows for whole reconciliations.
--   UpgradeConfig controllers/upgradeconfig_controller.go. scheduleJob and Reconcile (Reconcile), the
--                 search for the run (Window), the jobs of a config and the new job (Select), and
--                 cleanupSuccessfulJobs (Cleanup).
--   NodeDrain     controllers/node_force_drain_controller.go. What is observed (Observe), the timeouts
--                 (Grace), getDeletionCandidatePodsForNode (Candidates), the two ways to delete
--                 (Delete), Reconcile and the mapper of nodes (Reconcile). Allowed has the predicate of
--                 what a deletion rests on.
--   ManagedVersion  controllers/clusterversion_controller.go. applyOverlay and nextRequeue (Overlay),
--                 updateStatus, Reconcile and the filter of events (Reconcile).
--   WindowStatus  controllers/upgradesuspensionwindow_controller.go.
--   Metrics       the methods Describe and Collect of controllers/upgrade_information_collector.go
--                 (Collect, with the state of a job in Jobs), and of controllers/node_collector.go,
--                 controllers/clusterversion_collector.go and controllers/machine_collector.go (Objects).
--   HookWebhook   internal/webhook/v1beta1/upgradejobhook_webhook.go.
--   Json          the values that the environment of a hook job is made of.
--   Tests         a concrete cluster, and the theorems applied to it.
-- A function keeps the name of its Go method in snake case. A method that changes the object it points
-- to returns the object beside its result.
--
-- Instants and durations are integers of nanoseconds; a difference of instants is cut off at the bounds
-- of an int64, and the sum or difference of durations wraps around, as in Go. The loops over lists are
-- by recursion on the list. The search of Next has the bound of 1000 runs of the source, and the search
-- for an open window its bound of 101 attempts; neither bound is added by the model.
--
-- Parameters of the model (the record Env of each controller): the API server, the clock, the status
-- conditions of apimachinery (with the laws that it documents), label selectors, finalizers, owner
-- references, formatting, JSON, SHA-256, the cron parser, time zones, the queries of gojq and the merge
-- of mergo. Of the server it is assumed where named that an update answers with what it stored and a
-- read with an object of that name.
--
-- Not modelled: the entry point (main.go) and the simulator (sim/main.go), which only put together what
-- is modelled or stand in for the cluster, and generated code. Logging, the help texts of the metrics,
-- the registration with the manager and the indexes of its cache are left out of the code that is
-- modelled. Go's sorts are not stable and the order of its maps is open; the model takes one order, and
-- says so where it does.
pub mod Prelude
pub mod Api
pub mod Exec
pub mod Schedule
pub mod HealthCheck
pub mod ClusterVersion
pub mod Json
pub mod UpgradeJob
pub mod UpgradeConfig
pub mod NodeDrain
pub mod ManagedVersion
pub mod WindowStatus
pub mod Metrics
pub mod HookWebhook
pub mod Tests

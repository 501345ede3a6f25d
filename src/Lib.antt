-- ===== src/Lib.antt =====
-- tenantplane: a controller that gives each tenant its own Kubernetes control plane and projects
-- the tenant's objects into a namespace of the host cluster.
--
-- The parts. The sync engine (internal/syncer) lists the objects of one kind in the tenant's cluster
-- and makes each agree with its host object. Where that object lies and what it looks like is pure
-- planning and translation (internal/syncplan). The controller (internal/controller) runs the engine
-- with the limits and profiles of internal/isolation, keeps the engine's history and decisions in a
-- SyncDecision object, and owns the namespace of the tenant's control plane.
--
-- The files.
--   Base        shared notation: lists and maps measured by native numbers, byte strings with
--               UTF-8 runes, Go's package unicode, errors and results.
--   Object      the dynamic values of unstructured objects, reflect.DeepEqual, and the package
--               unstructured as an interface: its operations are a record, what is relied on is the
--               record IsUnstructured in Object/Laws, and Object/Memory shows that it can hold.
--   Syncplan    internal/syncplan/plan.go: SanitizeName is sanitize_name, HostName is host_name,
--               fnv32, Explain is explain.
--     Transform internal/syncplan/transform.go: BuildHostObject and ReverseLookup in Build, the
--               adoption of host-allocated fields in Adopt, ContentEqual and
--               MergeHostContentIntoTenant in Content, the labels in Labels.
--   Syncer      internal/syncer/engine.go: the engine's records, then Pair (reconcilePair and what it
--               calls), Orphans (collectOrphans, aggregate) and Pass (syncPass and its entry points).
--               A function takes the world, that is both clusters, the limiter, the history and what
--               the recorder was given, and returns the world after it.
--   Isolation   internal/isolation: profiles and the objects that enforce them.
--   Api         the fields of internal/api/v1alpha1/types.go that are used; Copies are the deep copies of
--               syncdecision_deepcopy.go, on a heap of arrays and maps.
--   Controller  the reconciler. Status and Support (status.go, support.go), Namespace (namespace.go),
--               Decisions (sync_decisions.go), Cadence (syncRequeueInterval,
--               rateLimiterForFairness, syncResourcesFromPolicy), Apis (the clients), Isolate
--               (isolation_apply.go), Sync (runSync and the recorder of events).
--     ControlPlane  controlplane.go and kubeconfig.go: names and Services, K3s (images), Workload
--               (the StatefulSet), Kubeconfig (the rewrite of the server).
--     Admission admission.go, and rbac_scope.go in Admission/Scope.
--     Reconcile tenantcluster_controller.go: Reconcile is reconcile, its steps are in Objects,
--               Cleanup and Credentials, the maps of the watches in Watches; Frames, Honest,
--               Soon, Outcomes, Synced and Deletion hold what is proved.
--   Cli         cmd/tenantplane/main.go: run, the render commands and explain-sync; Tenants joins what
--               is rendered to what the engine makes of it.
--   Tests       concrete settings, runs, and the theorems at concrete inputs.
--
-- Correspondence. A Go string is a list of bytes. A Go map is an association list with one entry for
-- a key; loops over maps run in the list's order. A nil pointer or nil map is `none`. A function that
-- mutates its receiver or argument returns the new value: the objects in question are deep copies in
-- the program, and Api/Copies alone has a heap. A call on a cluster returns its result with the
-- cluster after it, and may change the cluster also when it fails. The formatted values in messages (%s, %d, %q) are left out of the
-- texts; the text of a message is its format.
--
-- The reconciler. A step is an Action (Base/Action): from the state of the host and everything that
-- it reaches to a value, or to an early return, and the state after it. `if err := f(); err != nil`
-- is a bind, or one of or_fail and or_degrade where Reconcile returns or degrades. What a step does
-- from every state with an invariant is a Triple (Base/Action/Triple), and the steps of Reconcile are
-- composed by its rules. The events of one run of the sync are emitted at its end.
--
-- What the outside does. Object/Laws and Object/Frame say what is relied on of package unstructured;
-- Syncer/Pair/Settled/Server, Controller/Admission/Enforced, Controller/Namespace/Settled and
-- Controller/Reconcile/Deletion/Ends say which clients, and which work of the cluster between two calls, their theorems are for.
-- Syncer/Frame, Controller/Sync/Frame and Controller/Reconcile/Frames say which writes keep a predicate
-- of the state.
--
-- Bounds and termination. All loops are structural recursion, so no fuel is used. The hash fnv32
-- keeps its wrap-around, modulo 2 ^ 32. Numbers that the program only compares or counts are
-- unbounded.
--
-- Parameters. The clusters, the clients of the host for each kind of object, package controllerutil,
-- the match of label selectors, the exec into a pod, the parse of a kubeconfig, the rate limiter, the
-- store, package unstructured, package flag, Unicode's tables above ASCII, ParseQuantity,
-- ParseDuration and ParseGroupVersion are not in this repository, and are arguments of the
-- definitions that use them. Of the reconciler's `Reconcile` the run of a sync is an argument too,
-- for which Controller/Reconcile/Synced takes run_sync of Controller/Sync.
--
-- Not modelled: the registration of the watches, the manager process, generated deep copies and logging,
-- which have no logic of their own; the copies of a SyncDecision and of its list, which hold metadata
-- that apimachinery copies; the labels of the isolation objects; main of the command line,
-- which prints what run gives.
pub mod Base
pub mod Api
pub mod Object
pub mod Syncplan
pub mod Syncer
pub mod Isolation
pub mod Controller
pub mod Cli
pub mod Tests

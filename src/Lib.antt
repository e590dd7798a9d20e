-- ===== src/Lib.antt =====
-- aerospike-operator: a Kubernetes operator that keeps Aerospike clusters as their resources say.
--
-- The program has a validating webhook (pkg/admission), which admits or rejects the resources that
-- users create and change; a reconciler (pkg/reconciler), which the controllers call with each
-- changed cluster and which creates its pods and the objects they need; a handler that runs
-- backups and restores as jobs (pkg/backuprestore); and a garbage collector. They meet in the
-- custom resources (pkg/apis/aerospike) and in the rules for versions (pkg/versioning): what the
-- webhook admits is what the reconciler is given, and a backup that the reconciler creates before
-- an upgrade is run by the handler, whose conditions the reconciler waits for.
--
--   Prelude        numbers, lists, integers, results, text and decimal numbers, maps
--   Run            Go code that calls the API: a result, and the requests and events in order
--   Action         the same, where the API has a state that others change; Logs and Returns are the
--                  rules to prove with
--   Versioning     pkg/versioning: Version (version.go, versions.go), Upgrade (upgrade.go,
--                  strategy.go); RoundTrip, Supported, Order and Strategy prove
--   Api            pkg/apis/aerospike/v1alpha2 and common: the resources and their accessors
--   Admission      pkg/admission: Cluster (cluster.go), Backups (backups.go), Server and Serving
--                  (webhook.go); Cluster/Maps is namespaceMap, and the other children prove, and
--                  Serving too
--   Reconciler     pkg/reconciler: Cluster (cluster.go), Signals (upgrades.go), Status (status.go),
--                  Backups (backups.go), Validation (validation.go), Configs (configmap.go),
--                  Network (service.go, networkpolicy.go); Starts, Cleared, Requests, Requested,
--                  Upgrades, Awaited, Finish, Rendering and Reach prove
--   Pods           pkg/reconciler: Ensure (pod.go, ensurePods; upgrades.go, one pod), Create (pod.go,
--                  createPodWithIndex) with Spec and Sizes, Delete (pod.go, podutils.go), Status
--                  (podutils.go), Claims (pvc.go), Durations (pkg/utils/time); Platform is what is used of
--                  Kubernetes, Api the calls; Trace, Safety, SafeClaims, SafeCreate, SafeEnsure, Shape,
--                  Storage and Wanted prove what is requested, and Views, Removes, Adds, Keeps and Scales which pods
--                  there are
--   Collector      pkg/garbagecollector: Claims (pvcs.go), Backups (asbackups.go, gcs.go), Queue and Events
--                  (pkg/controller/garbagecollector.go); Reuse and Expiry prove, and Queue and Events too
--   Cloud          Gcs (pkg/backuprestore/gcs, utils.go), Backup (cmd/backup); RoundTrip proves
--   Asinit         cmd/asinit, the init container of a pod; Peers proves
--   BackupRestore  pkg/backuprestore: Job (job.go, secret.go), Handler (handler.go, status.go);
--                  Conditions, Handling, Counts, Starts and Progress prove
--   Controllers    pkg/controller: Worker (generic.go), Objects (cluster.go, backup.go, restore.go); Items,
--                  Shutdown and Owners prove
--   Startup        Registry (pkg/crd/registry.go), Convert (pkg/crd/converters), Ready (WaitReady of
--                  pkg/admission/webhook.go), Main (cmd/operator); Platform is the API; Converting, Again
--                  and Quiet prove, and Main too
--   Examples       concrete resources: tests, and the theorems at work
--
-- Go's functions keep their names, in the spelling of this language: MaybeReconcile is
-- maybe_reconcile. A string is the list of its bytes. An int is an integer, and what strconv.Atoi
-- rejects as out of range is rejected. A pointer is an option, and where its address matters a
-- record with the address. A map is the list of its entries, and where Go visits a map in an order
-- of its own, the order is an argument. An error is a value of a data type with one constructor
-- for each message.
--
-- Code that is not in the repository is an argument: the decoder of the API, the lookup of
-- secrets, clusters, backups, jobs and storage classes, and the answers to patches, creations and
-- deletions. Of a reconciliation the parts for the service, the config map, the network policy and
-- the pods are arguments too: only their results are known, and the log says that they were
-- started. In the model of MaybeReconcile, that is: all four have models of their own. The loops of the program that are modelled are over lists, but for that of
-- ensureClusterSize. The print of a decimal number has the number as its fuel, which is enough
-- since each step divides by ten: Prelude/Decimal/RoundTrip shows it.
--
-- The pods are modelled on a state that every call of the API is given and gives back, so that its
-- answers may change as other programs run. What a watch sees is the list of its events before the
-- time is out, and the ticks of the clock in ensureClusterSize are a number that the state gives:
-- both loops are structural over them. The rounds of a worker and of WaitReady have fuel; a theorem
-- of Controllers/Shutdown says how much a worker needs once its queue is shut down, and that of
-- WaitReady holds for any fuel, as nothing bounds its rounds. The goroutines that clear the name of a deleted pod are run
-- in order. Where a theorem says which pods there are, a record of laws says what the calls do to
-- the names of the pods, and that no other program creates or deletes pods of the cluster in the
-- meantime.
--
-- Not modelled: logging, the text of messages and events, the tickers that give feedback; the
-- constant parts of a pod, such as ports and probes, and the references to owners; the rendering of
-- the templates of the config map; keys and certificates, and the HTTP server of the webhook; the
-- informers of the controllers and the work queue itself, which are client-go's; the schemas and
-- the previous version of the resources; the calls of the Aerospike client; the flags of
-- cmd/backup, of cmd/asinit and of cmd/operator, and its election of a leader.
pub mod Prelude
pub mod Run
pub mod Startup
pub mod Action
pub mod Asinit
pub mod Cloud
pub mod Collector
pub mod Controllers
pub mod Pods
pub mod Versioning
pub mod Api
pub mod Admission
pub mod BackupRestore
pub mod Reconciler
mod Examples

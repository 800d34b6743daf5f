-- ===== src/Lib.antt =====
-- A model of Fluid-DataTable: controllers that put Hive tables into an Alluxio cache on Kubernetes.
--
-- The table controller reconciles a DataTable: it changes the locations of tables in the Hive
-- metastore, mounts them in Alluxio, keeps their sizes in Redis, and records in labels what it has
-- moved. The runtime controller sets up, watches and shuts down an Alluxio cluster, and places its
-- workers on nodes by labels.
--
-- Files and the code that they model:
--   Base           texts, maps, errors, 64-bit integers, number parsing; shared lemmas
--   Datatable      the table controller
--     Label        pkg/utils/datatable/datatable_utils.go
--     World        the calls outside the program, and the programs that make them
--     Exec, Redis  pkg/utils/exec/execInPod.go and pkg/utils/redisUtil/redisClient.go
--     Hive, Schema pkg/utils/hive/hiveClient.go
--     Admission    the eviction of tables in
--                  pkg/controllers/v1alpha1/datatable/datatable_controller.go
--     Reconcile    the rest of that file, with requeues and string helpers of
--                  pkg/utils/crtl_utils.go
--   Schedule       the placement of workers
--     Node, Sort   pkg/utils/kubeclient/node.go and sortNodesToBeScheduled of
--                  pkg/utils/lifecycle/schedule.go
--     Info         pkg/ddc/base/label.go and pkg/utils/tieredstore/tiered_store.go
--     Tiers        convertToTieredstoreInfo of pkg/ddc/base/runtime.go, and the order of media
--     Assign       AssignDatasetToNodes of pkg/utils/lifecycle/schedule.go, and
--                  pkg/utils/lifecycle/node.go
--   Util           slice.go, quantity.go, lifecycle/schedule_utils.go and helpers of crtl_utils.go of
--                  pkg/utils
--   Kube           pkg/utils/kubeclient: pods, volumes and claims (Pods, Volumes), config maps,
--                  services and namespaces (Objects), the pods of a stateful set (Owners), and
--                  commands in containers (Exec), with home.go of pkg/utils
--   Alluxio        the client of Alluxio
--     Shell, Operations, Output   pkg/ddc/alluxio/operations
--     Capacity, Metrics   GetWorkerUsedCapacity of pkg/ddc/alluxio/utils.go, and report.go
--     Names, Images       the rest of utils.go, api_gateway.go, deprecated_label.go, and
--                  pkg/utils/docker/image.go, mount.go and init_user.go
--   Runtime        the Alluxio runtime
--     Types, Conditions   api/v1alpha1/status.go and pkg/utils/runtime_condition.go
--     Template     pkg/ddc/base/template_engine.go, over the interface of engine.go
--     Status       master.go, worker.go and status.go of pkg/ddc/alluxio
--     Health, Shutdown    health_check.go and shutdown.go of pkg/ddc/alluxio
--       Shutdown.Cache, Shutdown.Candidates   invokeCleanCache of pkg/ddc/alluxio/cache.go, the tries
--                  of Shutdown, and the nodes that it takes
--     Labels       pkg/common/label.go and pkg/utils/label.go
--     Controller   pkg/controllers/runtime_controller.go
--     Engines      pkg/controllers/v1alpha1/alluxio and pkg/ddc/factory.go
--     Build        Build of pkg/ddc/alluxio/engine.go, runtime_info.go, and BuildRuntimeInfo of
--                  pkg/ddc/base/runtime.go
--     Install      master_internal.go of pkg/ddc/alluxio, over Helm
--     Sync         pkg/ddc/base/syncs.go, and the Alluxio engine as an Implement
--     Values       transformInitUsers, transformMasterSelector and getWorkerSelectors of
--                  pkg/ddc/alluxio
--   Process        external programs and files, as parameters
--   Helm, Kubectl  pkg/utils/helm and pkg/utils/kubectl
--
-- The table controller is a function from a state to an outcome (a result, an error or a panic) and
-- a state. The state has the pod that the exec package remembers and the history of calls that change
-- something outside; an environment answers each call from the history, and may answer as it likes.
-- The runtime's code is over any state of the cluster, with a record of the calls that it makes.
-- Setup calls the Alluxio engine (Sync has it as an interface), which installs its master by Helm
-- (Install) and places its workers by labels (Schedule); the controller takes its engine from the map
-- of engines (Engines), into which Build puts it (Engines.Reach, Controller.Pool).
-- Code that is not in the repository (Hive, Redis, Alluxio, Helm, the API server,
-- retry.RetryOnConflict, reflect.DeepEqual, sort.Slice, sort.Sort) is such a parameter.
--
-- Sizes are signed 64-bit integers with their wrap-around, and the quotas of a tier whole numbers,
-- whose sums do not overflow, as those of resource.Quantity. Numbers of replicas and nodes are
-- natural numbers, below 2^31 in Kubernetes. Texts are lists of bytes and are taken to be ASCII
-- where white space is trimmed. The binary search runs on fuel, one round more than there are
-- places, and so never runs out; the loop over the lines of a capacity report has one round more
-- than there are lines; the digits of a 64-bit integer fit into 20 rounds. Maps are association
-- lists in the order in which Go ranges over them, which is any order.
--
-- Not modelled: logging, mutexes, the opening and closing of connections, generated code, the main
-- programs, and the Helm values of an engine, whose code is commented out in the source for the most
-- part. Error messages and the reasons of conditions are shortened.
pub mod Base
pub mod Process
pub mod Helm
pub mod Kubectl
pub mod Datatable
pub mod Schedule
pub mod Util
pub mod Kube
pub mod Alluxio
pub mod Runtime

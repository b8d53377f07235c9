-- ===== src/Lib.antt =====
-- A model of the batch-release operator (cmd, internal/controller, pkg/util, api/v1alpha1): a
-- controller that rolls a Kubernetes Deployment out in steps, each of which lets a part of the pods
-- have the new template. While a release runs, the Deployment is paused and the executor of the release
-- scales the replica sets itself.
--
-- Parts, and the files that model them:
--   Release        the BatchRelease resource (api/v1alpha1/batchrelease_types.go)
--   Objects        the fields of the Kubernetes objects that the program reads or writes
--   Labels         pkg/util/labels/labels.go
--   Deployment     pkg/util/deployment/deployment.go: Counts (sums over replica sets), Limits
--                  (NewRSReplicasLimit, ResolveFenceposts), Order and Find (sorting, the new and the
--                  old replica sets), Annotations, Conditions, Progress, Hash (ComputeHash)
--   Executor       internal/controller/partition/executor.go: Scale (scaleReplicaSet), OldSets
--                  (cleanup and scale-down), NewSet (newRSNewReplicas), Proportion (scale), Ready
--                  (IsBatchReady), Status (syncRolloutStatus), Store (UpdateObj), Revision
--                  (setNewReplicaSetAnnotations), NewReplicaSet (getNewReplicaSet), Listing, Steps
--                  (stepByStep), Phases (Do); Position (the state machine of phases and steps);
--                  Safety (panics)
--   Controller     internal/controller/batchrelease_controller.go (Reconcile), and Handlers: the
--                  event handlers of internal/controller/batchrelease_event_handller.go
--   Command        cmd/main.go: the flags, the options of the servers and the start of the manager
--                  (main), with SetupWithManager of the controller
--   Examples       concrete runs
-- The modules below a part, such as Executor/OldSets/Availability, hold its theorems.
-- A function keeps its name in snake case; `init` is `initialise` and `Do` is `run`.
--
-- State: the methods of the executor run in the monad `M` of Executor/Monad. Its state is the
-- executor with its BatchRelease and its Deployment, the requests made so far and the events
-- recorded so far; a method ends with a value, an error, or a panic (an index out of range, a nil
-- pointer). Assignments through pointers are state updates, and a function that sorts or replaces
-- the elements of its caller's slice returns the slice as it leaves it. The one place where two
-- slices may share an array and both are used afterwards is `old_after_find` of Executor/OldSets.
--
-- What is not in the repository is a parameter. `Vendor` holds the functions of other packages
-- (intstr, integer, pointer, equality, yaml, json, labels, math.Round of a quotient), and `IsVendor`
-- what is used of their documentation. A `Client` answers each request from the history of the
-- requests. `Env` holds both with the clock, the text of an error, the runtime's choice of slice
-- capacities and retry.RetryOnConflict. `Json` is what the event handlers use of encoding/json.
--
-- Executor/Position reads the executor as a state machine. A `Position` is the phase, the index and
-- the state of the step, and the number of steps; `Move` lists what one run may do to it, from
-- whatever phase, and `Course` what it does in a rollout that nothing interrupts (no rollback mark, no
-- new template, no scaling event). Position itself and Storing, Scaling and Creating say which methods
-- leave it alone; Steps, Init, Phases and Runs follow it through Do, and Course's own Steps and Runs
-- through a rollout; Reach, Order, Left and Progress are about many runs. Those on `Move` assume that
-- retry.RetryOnConflict runs an attempt again only after a conflict (`IsRetry`) and that the server
-- keeps releases whose index is that of a step (`KeepsSteps`). A rollback of a release that is past
-- its second step writes one with two steps, which is off them until the next run: Safety/Rollback is
-- about that run.
--
-- Executor/Safety follows Do through every pointer and every index that it reads; Controller/Survival
-- goes on to Reconcile. A `View` is what those reads depend on: the position, and the template and
-- the selector of the Deployment. They assume of the server, besides, that it stores the templates
-- and selectors that it is sent (`KeepsSpecs`), and of equality.Semantic.DeepEqual that it is
-- symmetric and compares label maps by their entries (`ComparesTemplates`).
--
-- The workload reference and the strategy of a release are pointers in the source which the CRD
-- requires; they are plain values here. The sizes of proportional scaling, a map by name in the source,
-- stand in a list beside their replica sets, whose names are distinct in a namespace.
--
-- Numbers: an int32 is an integer of Base/Int, and each of its operations wraps to 32 bits (`add32`
-- and its like); int64 numbers are read from text with their range. A string is the list of its
-- bytes; a map is an association list, and the nil map is told from an empty one. sort.Sort is the
-- insertion sort that Go runs on at most twelve elements; on more it runs another algorithm, which may
-- order ties differently. There is no fuel: each loop of the source runs over a list. The clock is
-- read once in a run.
--
-- Not modelled: the registration of the types, generated deep copies, logging, and the texts of
-- events and errors beyond their reasons.
pub mod Base
pub mod Objects
pub mod Release
pub mod Vendor
pub mod Labels
pub mod Deployment
pub mod Executor
pub mod Controller
pub mod Command
mod Examples

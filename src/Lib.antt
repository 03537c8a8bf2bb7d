-- ===== src/Lib.antt =====
-- The Cluster API infrastructure provider for Tinkerbell: its machine and cluster controllers, its
-- webhooks, the conversion of its API versions, its manager of watches, and its start.
--
-- The program. The machine controller (controller/machine) gives each TinkerbellMachine a Tinkerbell
-- Hardware: it selects one and claims it by labels and a finalizer, reserves an address for it from an
-- IPAM pool, writes its user data, creates a Workflow that installs it, and reports the machine ready
-- when the Workflow has succeeded; later it power-cycles the Hardware once if an in-place update
-- stalls, and on deletion it gives the Hardware back. The cluster controller (controller/cluster)
-- settles the endpoint of the control plane. The watch manager (pkg/cluster/watch.go) starts watches
-- of single namespaces of an external Tinkerbell cluster. The webhooks (webhooks) admit or refuse
-- changes, and api/v1beta1/conversion.go converts between the API versions. The start (main.go) sets
-- all of these up, for the cluster it runs in or for the external one that a kubeconfig names.
--
-- The files.
--   Prelude             tests on numbers, Go maps as association lists, text, sorting
--   Objects             the API objects: api/v1beta2, and the fields that the code touches of the
--                       Kubernetes, Cluster API and Tinkerbell types
--   Kube                errors, the environment, and actions: an action takes the state of one
--                       reconcile (the machine, the reserved address, the calls sent) to a result
--                       and the state after it. Kube.Sends, Kube.Traces, Kube.Ensures and
--                       Kube.Patched have the rules for what an action sends and what it ensures if
--                       it succeeds
--   Machine.Interfaces  hardware.go and ipam.go: primaryInterface, interfaceKey, hardwareIP, hasBMC
--   Machine.Reservation ipam.go: hardwareAddressFromIPAddress, heldBy, clearHardwareAddress
--   Machine.Claims      ipam.go: ensureIPAddressClaim, ensureHardwareAddress
--   Machine.Ipam        ipam.go: reconcileIPAM, applyIPAddress, releaseIPAddressClaim, ipamReservation
--   Machine.Ownership   hardware.go: takeHardwareOwnership, ensureHardwareUserData, releaseHardware
--   Machine.Selection   hardware.go: hardwareForMachine, byHardwareAffinity
--   Machine.Bmc         bmc.go, and setResourceOwnership of scope.go
--   Machine.Recovery    inplace_recovery.go
--   Machine.Template    template.go: the v1alpha1 Template
--   Machine.Tasks       template.go: the Tasks of a native workflow
--   Machine.Workflow    workflow.go, and ensureWorkflow of scope.go
--   Machine.Reconcile   scope.go: Reconcile, reconcile, setStatus; hardware.go: ensureHardware
--   Machine.Deletion    scope.go: DeleteMachineWithDependencies
--   Machine.Controller  tinkerbellmachine.go: Reconcile, and its checks of scope.go
--   Machine.Mappers     tinkerbellmachine.go: labelToMachineMapper and
--                       TinkerbellClusterToTinkerbellMachines, which name the machines to reconcile
--   Webhooks            webhooks
--   Cluster             controller/cluster/tinkerbellcluster.go
--   Watch               pkg/cluster/watch.go. Watch.States has the blocks under the mutex as steps,
--                       Watch.Phases the life of one namespace that they refine, Watch.Start the
--                       start of the watches of a namespace, Watch.Caches the caches behind them
--   Conversion          api/v1beta1/conversion.go
--   Setup               main.go, pkg/cluster/cluster.go: RestConfig, and the SetupWithManager of both
--                       controllers: an action takes the calls made so far to a result or the error
--                       that ends the program
--   Build               pkg/build/build.go: the version that the start logs
--   Examples            concrete objects and servers, and the theorems applied to them
-- A function of the source keeps its name, in snake case; a helper stands next to what it is part of.
--
-- The environment. What the repository calls and does not hold is a parameter: `Env` for the machine
-- controller, `EntryEnv` for its entry point, `MapperEnv` for its mappers, `ClusterEnv` for the
-- cluster controller, `Codec` for JSON, `CacheAnswers` for the caches of a watch, `SetupEnv` for the
-- start of the program, and single functions for the webhooks. The answer of a server to a call is a
-- function of the calls sent before it, so a theorem for every `Env` holds whatever servers and other
-- controllers do meanwhile. Where a proof relies on documented behaviour of that code, the laws stand
-- in a record: `FinalizerLaws` (controllerutil), `EndpointLaws` (APIEndpoint.IsValid), `Restores`
-- (JSON gives back what was written), `SelectorLaws` (a list call lists what its selector matches),
-- `KeepsLabels` (SetControllerReference leaves the labels alone), `IsTaskServer` (the Tasks of a
-- server are those that the accepted calls have made, where no other client changes them).
--
-- The model. A pointer is an option, a nil map and an empty one are the same, and a Go map is an
-- association list whose order stands for the order in which `range` walks it. Errors are values:
-- wrapping keeps the error that `errors.Is` finds, and texts are left out. What a call answers is used
-- as the object after it, as the client writes the answer to the object that it is given; the patches
-- of the TinkerbellMachine itself are the exception, after which the machine is as it was sent. An
-- int32 is nonnegative or negative and is only compared; times are natural numbers, in seconds for the recovery
-- and in nanoseconds for the watches. All functions recurse on a list or on a number, so no fuel is
-- needed: the loops of the source range over slices and maps.
--
-- Interleavings. The watch manager's mutex and singleflight are a step relation over the blocks that
-- they make atomic; the goroutine of a cache reads the cache's context in one step and takes the mutex
-- in another. One reconcile is sequential; what runs beside it is in the answers of the servers.
--
-- Not modelled: generated deep copies, the registration of the conversions and of the API types, the
-- parsing of flags, events, logs and the messages of conditions.
pub mod Prelude
pub mod Objects
pub mod Kube
pub mod Machine
pub mod Webhooks
pub mod Cluster
pub mod Watch
pub mod Conversion
pub mod Setup
pub mod Build
pub mod Examples

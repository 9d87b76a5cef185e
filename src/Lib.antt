-- ===== src/Lib.antt =====
-- micrun is a containerd runtime that runs an RTOS as a container: a container is a client of the MICA
-- daemon (micad), which boots it on a pedestal such as Xen. The development models what lies between
-- the requests of containerd, the OCI specification and the daemon.
--
-- The parts and their files:
-- - pkg/cpuset/cpuset.go: Cpuset (the set algebra), Cpuset/Print (String), Cpuset/Parse (Parse).
-- - pkg/pedestal/parser.go (ParseCPUArr): Pedestal/CpuArray; pkg/libmica/utils.go (isValidCPUString,
--   ParseCPUString): Mica/CpuString. Three pieces of code print and read lists of CPUs, and the
--   theorems relate them.
-- - pkg/pedestal/planner.go, resources.go and ShareToWeight of xen.go: Pedestal/Planner,
--   Pedestal/Essential, Pedestal/Weight. The planner turns an OCI specification into what the pedestal
--   needs.
-- - pkg/micantainer/container_resources.go: Resources (the accessors of ContainerConfig),
--   Resources/Limits (ValidateResourceLimits), OciResources (ParseOCIResources with CpusetRangeValid
--   of utils.go, which drops the CPUs that the host does not have).
-- - pkg/utils/parser.go: Config/Ini (ParseINI). pkg/configstack/container_stack.go: Config/Layer
--   (FallbackConfLayer), and micrun_configs.go: Config/Discovery. pkg/oci/runtime_setup.go and
--   runtime_stack.go: Config/Runtime (RuntimeConfig and its setters), Config/Stack (the files and the
--   annotations that are applied to it).
-- - pkg/libmica/client.go: Mica/ClientConf (MicaClientConf, InitWithOpts, pack), Mica/Command
--   (MicaCommand), Mica/Control (Create, micaCtl, Start, Stop, Pause, Resume, Remove), Mica/Status
--   (Status, FilterStatuses, with parseMicaStatus of utils.go).
-- - pkg/libmica/socket.go: Mica/Socket (rx, handleMsg). pkg/libmica/client_xl_workaround.go:
--   Mica/Update, over Pedestal/Xl, the commands of pkg/pedestal/xen.go that change a domain.
-- - pkg/libmica/resource_manager.go: Mica/Executor, the record of what the client was last given.
-- - pkg/micantainer/sandbox.go, sandbox_config.go, sandbox_resource.go and net.go: the tree Sandbox.
--   Core (the records, what a sandbox asks of the system, StoreSandbox, removeContainer), Accounting
--   (updateResources, calculateSandboxVCPUs and calculateSandboxMemory of utils.go, with
--   pkg/utils/resource_utils.go), Pinning (getSandboxCpusetStr, pinVCPU, checkVCPUsPinning), Members
--   (CreateContainer, DeleteContainer, addContainer, initContainers, loadContainersToSandbox, and
--   delete of container.go), Lifecycle (Start, Stop, Delete), Calls (the operations on a container by
--   its id, stats of container.go), Setup (newSandbox, createSandbox, createSandboxFromConfig,
--   restore, loadSandbox of utils.go, CleanupContainer of container.go). Of the proofs, Rules has the
--   invariant and its rules, Upkeep one module for each kind of operation, Outcome Start and Stop,
--   Runs sequences of requests, Refinement the table of states of a sandbox.
-- - pkg/micantainer/states.go: Container/State. pkg/micantainer/container.go: Container/Core (the
--   record, setContainerState, updateExitNotifier), Container/Presence (checkState,
--   ensureClientPresence, registerClient), Container/Lifecycle (start, stop, kill, pause, resume,
--   doStop, setupMemory), Container/Update (update, extractChanges, applyChanges), Container/Making
--   (newContainer, create, Signal, winresize, setVcpuAffinity, validMicaContainer, the steps of
--   delete), Container/Helper (genNsenterArgs, assembleHelperEnv, mergeEnv of an infra container's
--   process). Container/Fit is about all of them. updateContainerResource of utils.go is
--   Mica/Executor/Update.
-- - pkg/oci/oci_configs.go: Oci/Types (GetContainerType, GetSandboxID, checkInfra), Oci/Defaults
--   (applyContainerRuntimeDefaults, resolveMaxVcpu, calculateClientMemThreshold), Oci/Toggles
--   (applySandboxAnnotations).
-- - pkg/shim: the tree Shim, containerd's task service, which calls the sandbox. Core (shimService,
--   shimContainer and ioExit of shimContainer.go, the lock, send), Start (Start, startContainer,
--   newTtyIO, newPipeIO, the channels of ioCopy), Ending (Kill, requestContainerKill,
--   getContainerStatus), Deletion (Delete, deleteContainer), Watching (waitContainerExit), Requests
--   (the other requests of shim_services.go), Events (events.go), Configuration (loadRuntimeConfig of
--   utils.go), Creation (New, Create, create, newContainer, loadSpec, and ValidContainerID of
--   pkg/utils/checks.go). Of the proofs, Rules has the rules for the outcomes, Tidy the invariant of
--   the containers, Keeping that the requests keep it, Outcome the kill and the watcher, Runs
--   sequences of requests and what makes them hang.
-- Prelude, Text, Sorting and Keyed hold what these share: names of the libraries, integers of the
-- machine, and what the code uses of Go's strings, strconv, sort and maps. Examples applies the
-- theorems to inputs.
--
-- A struct is a record; an operation takes the record and the state of the world and gives both back,
-- with its result. The world is a parameter `W`: Mica/Host has what libmica asks of the system
-- (sockets, the xl command, one environment variable), and Container/Core.Outside has the files that a
-- container writes; a sandbox in its world, Sandbox/Core.World, makes the outside of its containers. A
-- container's config is the entry of ContainerConfigs that it points to, and what an operation on a
-- container writes through these pointers is put back into both maps of the sandbox. Every theorem
-- holds for any behaviour of these, unless it says otherwise. Texts are lists of bytes, taken as
-- ASCII. An int has 64 bits; uint32 and int64 wrap where the source converts.
--
-- A map is an association list, and a loop over it walks the list. The theorems hold for every list,
-- and so for every order in which Go walks the map. ContainerConfigs is taken as a map that is there,
-- also in a sandbox that was read from a file. Calls on a sandbox come one after the other.
--
-- Loops are structural. CPUSet.String runs on as many rounds as there are CPUs, which is enough since
-- a round takes one CPU at least; the loop over a range counts its CPUs. A range that ends at the
-- largest int has no end in Go, since i++ wraps around: for it Parse gives the mark `endless`, and
-- ParseCPUString no result. A caller goes on with both as with an error, which has no counterpart in
-- the code, since it does not come that far. The loop of rx runs over the Reads before the deadline.
--
-- A request to the shim, or one of its goroutines, ends with a result, an error, a panic or the end of
-- the process, or it waits for ever. The lock is a flag: to take it while it is held is to wait for
-- ever, which is what it comes to for its own holder. A channel that is only closed is a flag as well,
-- and to close it twice is a panic. A deferred unlock runs on a panic too. The channel of the events
-- is taken to have room, since its reader empties it without the lock. Containers are stored by value
-- under their id, and what the code writes through its pointer is put back there. Create runs
-- setupContainer as an operation that is a parameter (`setup_container`), and what is said of Create
-- holds for every one. Shim/Start.Streams, Shim/Ending.Ground and Shim/Configuration.Nursery have what
-- the shim asks of the system: FIFOs, unmounts and the clock, files and the environment.
-- Oci/Types.CriNames has the annotations of containerd and podman.
--
-- Not modelled: logging; saving and restoring state as JSON; the reading of a specification; the exec
-- of an infra container's process; the parsers of xl's output; of the shim the start of its process,
-- Cleanup, the mounts, the format of the metrics and the bytes that are copied; the paths and the
-- assembly of the configs in oci_configs.go; the network namespaces and the detection of the host,
-- which are system calls.
pub mod Prelude
pub mod Text
pub mod Sorting
pub mod Cpuset
pub mod Pedestal
pub mod Resources
pub mod Mica
pub mod OciResources
pub mod Keyed
pub mod Config
pub mod Container
pub mod Sandbox
pub mod Shim
pub mod Oci
pub mod Examples

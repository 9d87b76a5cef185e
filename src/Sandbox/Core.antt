-- ===== src/Sandbox/Core.antt =====
-- pkg/micantainer/sandbox.go, sandbox_config.go, sandbox_resource.go and net.go: the records, what a
-- sandbox asks of the system, and how the operations on a container run in it. A sandbox's config is
-- never nil: newSandbox sets it. The fields that are only carried along (Ped, Version, locks, context)
-- are left out. A container's config is the one that ContainerConfigs points to.
use micrun.Prelude.{
  ℕ, List, ◌++◌, Bool, true, false, Option, none, some, Bytes, codes, if◌then◌else◌,
}
use micrun.Keyed.{lookup, has, remove, replace}
use micrun.Resources.{ContainerConfig}
use micrun.Cpuset.{CpuSet}
use micrun.Pedestal.Essential.{PedType, unsupported}
use micrun.Mica.Host.{Host}
use micrun.Container.State.{StateString}
use micrun.Container.Core.{
  Outside, Container, Error, container_not_found, empty_container_id, failed, Result, ok, error,
  Step,
}
use micrun.Container.Presence.{is_nil}

pub record NetworkConfig : Type 0 where
  pub network_id : Bytes
  pub network_created : Bool
  pub holder_pid : ℕ

pub record SandboxConfig : Type 0 where
  pub id : Bytes
  pub hostname : Bytes
  pub network : NetworkConfig
  pub ped_type : PedType
  pub mini_vcpu_num : ℕ
  pub container_configs : List (Bytes × ContainerConfig)
  pub annotations : List (Bytes × Bytes)
  pub enable_vcpus_pinning : Bool
  pub shared_cpu_pool : Bool
  pub static_resource_mgmt : Bool
  pub huge_page_support : Bool
  pub infra_only : Bool

pub record SandboxResource : Type 0 where
  pub vcpu_num : ℕ
  pub pcpu_pool : List ℕ
  pub container_vcpus : List (Bytes × List ℕ)
  pub container_cpu_sets : List (Bytes × CpuSet)
  pub memory_pool_bytes : ℕ

pub record Sandbox : Type 0 where
  pub id : Bytes
  pub config : SandboxConfig
  pub containers : List (Bytes × Container)
  pub state : StateString
  pub res : SandboxResource
  pub vcpu_already_pinned : Bool

-- SandboxStorage, with the network in its configuration
pub record SandboxStorage : Type 0 where
  pub id : Bytes
  pub state : StateString
  pub config : SandboxConfig

-- What restoreSandbox finds: no file, a file that cannot be read, or a sandbox.
pub data Restored : Type 0 where
  missing unreadable : Restored
  restored : SandboxStorage → Restored

-- What a sandbox asks of the system.
pub record World (W : Type 0) : Type 0 where
  pub host : Host W
  pub physical : ℕ
  pub firmware : Bytes → W → Bool
  pub regular : Bytes → W → Bool
  pub save_state : Container → W → W × Bool
  -- the state that a container's files hold
  pub saved_state : Bytes → W → Option StateString
  pub terminate : W → W × Bool
  pub remove_cache : Bytes → W → W
  pub mkdir_all : Bytes → W → W × Bool
  pub save_json : Bytes → SandboxStorage → W → W × Bool
  pub read_json : Bytes → W → Restored
  pub remove_all : Bytes → W → W × Bool
  -- netns.Cleanup
  pub netns_cleanup : Bytes → ℕ → W → W × Bool

-- SandboxConfig.valid
unfoldable pub valid : SandboxConfig → Bool
valid sc =
    if is_nil sc.id then false else elim sc.ped_type [ unsupported ↦ sc.infra_only | _ ↦ true ]

-- A sandbox in its world, and an operation on it.
abbrev pub At : Type 0 → Type 0
At W = Sandbox × W

abbrev pub Op : Type 0 → Type 0 → Type 0
Op W A = At W → At W × Result A

module _ {W : Type 0} where
  abbrev pub pure : {A : Type 0} → A → Op W A
  pure a at = (at, ok a)

  abbrev pub fail : {A : Type 0} → Error → Op W A
  fail e at = (at, error e)

  -- An operation that goes on if there was no error.
  unfoldable pub go_on : {A B : Type 0} → At W × Result A → (A → Op W B) → At W × Result B
  go_on (at, ok a) next = next a at
  go_on (at, error e) next = (at, error e)

  infixl 5 ◌>>=◌ ◌>>◌
  abbrev pub ◌>>=◌ : {A B : Type 0} → Op W A → (A → Op W B) → Op W B
  ◌>>=◌ m next at = go_on (m at) next

  abbrev pub ◌>>◌ : {A B : Type 0} → Op W A → Op W B → Op W B
  ◌>>◌ m next at = go_on (m at) (λ _. next)

  -- An error that is only logged.
  abbrev pub logged : {A : Type 0} → At W × Result A → At W × Result Unit
  logged (at, r) = (at, ok tt)

  abbrev pub log_error : {A : Type 0} → Op W A → Op W Unit
  log_error m at = logged (m at)

  abbrev pub get : Op W Sandbox
  get (s, w) = ((s, w), ok s)

  abbrev pub set : Sandbox → Op W Unit
  set s (_, w) = ((s, w), ok tt)

  abbrev pub modify : (Sandbox → Sandbox) → Op W Unit
  modify f (s, w) = ((f s, w), ok tt)

  abbrev pub asked : Error → Sandbox → W × Bool → At W × Result Unit
  asked e s (w, true) = ((s, w), ok tt)
  asked e s (w, false) = ((s, w), error e)

  -- A request to the system.
  unfoldable pub system : Error → (W → W × Bool) → Op W Unit
  system e request (s, w) = asked e s (request w)

  abbrev pub when : Bool → Op W Unit → Op W Unit
  when b m at = if b then m at else (at, ok tt)

  unfoldable pub present_or : Error → Option Container → Op W Container
  present_or e none at = (at, error e)
  present_or e (some c) at = (at, ok c)

  -- s.containers[id]
  unfoldable pub find : Bytes → Op W Container
  unfolding present_or
  find id (s, w) = present_or container_not_found (lookup id s.containers) (s, w)

-- What an operation on a container leaves, written through its pointer, and that to its config.
unfoldable pub put_back : Container → Sandbox → Sandbox
unfolding replace
put_back c s = record s {
  containers = replace c.config.id c s.containers;
  config = record s.config {
    container_configs = replace c.config.id c.config s.config.container_configs;
  };
}

-- setSandboxState
abbrev pub set_sandbox_state : {W : Type 0} → StateString → Op W Unit
set_sandbox_state state = modify (λ s. record s { state = state })

-- sandboxStoragePath, for an id that is a single path element
abbrev pub sandbox_storage_path : Bytes → Bytes
sandbox_storage_path id = codes "/run/micrun/sandbox/" ++ id

abbrev pub sandbox_state_file : Bytes → Bytes
sandbox_state_file id = sandbox_storage_path id ++ codes "/state.json"

-- The storage that StoreSandbox writes.
abbrev pub storage_of : Sandbox → SandboxStorage
storage_of s = record { id = s.id; state = s.state; config = s.config }

module _ {W : Type 0} (world : World W) where
  abbrev save_in_directory : Sandbox → W × Bool → W × Bool
  save_in_directory s (w, true) = world.save_json (sandbox_state_file s.id) (storage_of s) w
  save_in_directory s (w, false) = (w, false)

  unfoldable pub store : Sandbox → W → W × Bool
  store s w = save_in_directory s (world.mkdir_all (sandbox_storage_path s.id) w)

  -- StoreSandbox, over newSandboxStoragePath
  unfoldable pub store_sandbox : Op W Unit
  unfolding system store
  store_sandbox (s, w) = system failed (store s) (s, w)

  -- The outside of a container of the sandbox. Its operations read the sandbox and store it, and
  -- do not change it but by what they write through the container's pointers.
  unfoldable pub inside : Sandbox → Outside W
  unfolding store
  inside s = record {
    host = world.host;
    firmware = world.firmware;
    save_state = world.save_state;
    store_sandbox = store s;
    terminate = world.terminate;
  }

  abbrev pub settle : {A : Type 0} → Sandbox → Container × W × Result A → At W × Result A
  settle s (c, w, r) = ((put_back c s, w), r)

  -- An operation on a container of the sandbox.
  unfoldable pub call : {A : Type 0} → (Outside W → Step W A) → Container → Op W A
  unfolding put_back inside
  call op c (s, w) = settle s (op (inside s) c w)

module _ {W : Type 0} where
  abbrev pub removed : Bool → Bytes → Op W Unit
  removed there id (s, w) =
      if there
      then ((record s { containers = remove id s.containers }, w), ok tt)
      else ((s, w), error failed)

  -- removeContainer
  unfoldable pub remove_container : Bytes → Op W Unit
  unfolding remove
  remove_container id (s, w) =
      if is_nil id
      then ((s, w), error empty_container_id)
      else removed (has id s.containers) id (s, w)

-- ===== src/Sandbox/Setup.antt =====
-- pkg/micantainer/sandbox.go (newSandbox, restore, createSandbox, createSandboxFromConfig), utils.go
-- (loadSandbox) and container.go (CleanupContainer): how a sandbox comes to be and how it goes. createNetwork
-- and postCreated do nothing.
use micrun.Prelude.{
  ℕ, [], ◌∷◌, Bool, true, false, ◌&&◌, ◌||◌, not, Option, none, some, Bytes, if◌then◌else◌, take,
}
use micrun.Mica.Executor.{bytes_eq}
use micrun.Mica.Control.{client_not_exist}
use micrun.Container.State.{ready, running, creating, same}
use micrun.Container.Core.{
  Error, container_not_found, empty_container_id, empty_sandbox_id, sandbox_not_found, failed,
  Result, ok, error,
}
use micrun.Container.Presence.{is_nil}
use micrun.Sandbox.Core.{
  Sandbox, SandboxConfig, SandboxResource, Restored, missing, unreadable, restored, World, At, Op,
  ◌>>◌, go_on, log_error, valid, sandbox_state_file,
}
use micrun.Sandbox.Members.{init_containers, load_containers, delete_container}
use micrun.Sandbox.Lifecycle.{remove_network, stop_sandbox, delete_sandbox}
use micrun.Sandbox.Calls.{stop_container}
pub mod Invalid

-- NewResMgmt
abbrev pub no_resource : SandboxResource
no_resource = record {
  vcpu_num = 0;
  pcpu_pool = [];
  container_vcpus = [];
  container_cpu_sets = [];
  memory_pool_bytes = 0;
}

abbrev pub fresh : SandboxConfig → Sandbox
fresh config = record {
  id = config.id;
  config = config;
  containers = [];
  state = creating;
  res = no_resource;
  vcpu_already_pinned = false;
}

-- restore: what cannot be read, or is of another sandbox, is only logged.
unfoldable pub restore : Restored → Sandbox → Sandbox
restore missing s = s
restore unreadable s = s
restore (restored ss) s =
    if bytes_eq ss.id s.id then record s { state = ss.state; config = ss.config } else s

-- newSandbox, where the file of the sandbox holds what is given
unfoldable pub new_sandbox : Restored → SandboxConfig → Option Sandbox
unfolding restore valid
new_sandbox file config = if valid config then some (restore file (fresh config)) else none

abbrev pub max_hostname_length : ℕ
max_hostname_length = 64

-- len(hostname) > maxHostnameLength, and the cut
abbrev pub cut_hostname : SandboxConfig → SandboxConfig
cut_hostname config = record config { hostname = take max_hostname_length config.hostname }

unfoldable pub make_ready : Sandbox → Sandbox
make_ready s =
    if same s.state ready || same s.state running
    then s
    else record s { state = ready; config = cut_hostname s.config }

abbrev pub made_ready : Option Sandbox → Option Sandbox
made_ready none = none
made_ready (some s) = some (make_ready s)

-- createSandbox
unfoldable pub create_sandbox : Restored → SandboxConfig → Option Sandbox
unfolding new_sandbox make_ready
create_sandbox file config = made_ready (new_sandbox file config)

-- How createSandboxFromConfig ends.
pub data Creation : Type 0 where
  created : Sandbox → Creation
  not_created : Error → Creation
  panicked : Creation

module _ {W : Type 0} (world : World W) where
  -- The deferred functions, in their order.
  abbrev pub undo_sandbox : Op W Unit
  undo_sandbox = do log_error (remove_network world); log_error (delete_sandbox world)

  abbrev pub left : Error → At W × Result Unit → W × Creation
  left e ((s, w), r) = (w, not_created e)

  abbrev pub initialized : At W × Result Unit → W × Creation
  initialized ((s, w), ok _) = (w, created s)
  initialized (at, error e) = left e (undo_sandbox at)

  -- A configuration that is not valid leaves no sandbox, and its error is overwritten by that of
  -- createNetwork before the network of the sandbox is read.
  abbrev pub initialize : Option Sandbox → W → W × Creation
  initialize none w = (w, panicked)
  initialize (some s) w = initialized (init_containers world (s, w))

  abbrev pub file_of : Bytes → W → Restored
  file_of id w = world.read_json (sandbox_state_file id) w

  -- createSandboxFromConfig, which is CreateSandbox
  unfoldable pub create_sandbox_from_config : SandboxConfig → W → W × Creation
  unfolding create_sandbox init_containers remove_network delete_sandbox go_on
  create_sandbox_from_config config w = initialize (create_sandbox (file_of config.id w) config) w

  abbrev pub loaded : At W × Result Unit → W × Result Sandbox
  loaded ((s, w), ok _) = (w, ok s)
  loaded ((s, w), error e) = (w, error e)

  abbrev pub load_created : Option Sandbox → W → W × Result Sandbox
  load_created none w = (w, error failed)
  load_created (some s) w = loaded (load_containers world (s, w))

  abbrev pub load_file : Restored → W → W × Result Sandbox
  load_file missing w = (w, error sandbox_not_found)
  load_file unreadable w = (w, error failed)
  load_file (restored ss) w = load_created (create_sandbox (file_of ss.config.id w) ss.config) w

  -- loadSandbox
  unfoldable pub load_sandbox : Bytes → W → W × Result Sandbox
  unfolding create_sandbox load_containers
  load_sandbox id w = if is_nil id then (w, error empty_sandbox_id) else load_file (file_of id w) w

  abbrev pub is_not_found : Error → Bool
  is_not_found container_not_found = true
  is_not_found _ = false

  -- An error that ends the cleanup, unless it is ContainerNotFound or the cleanup is forced.
  abbrev pub unless_gone : Bool → At W × Result Unit → At W × Result Unit
  unless_gone force (at, ok a) = (at, ok a)
  unless_gone force (at, error e) = if is_not_found e || force then (at, ok tt) else (at, error e)

  abbrev pub or_forced : Bool → At W × Result Unit → At W × Result Unit
  or_forced force (at, r) = if force then (at, ok tt) else (at, r)

  abbrev pub remove_if_empty : Bool → Op W Unit
  remove_if_empty force (s, w) = elim s.containers [
    | c ∷ cs ↦ ((s, w), ok tt)
    | [] ↦ go_on (or_forced force (stop_sandbox world force (s, w))) (λ _. delete_sandbox world)
  ]

  abbrev pub clean_up : Bytes → Bool → Op W Unit
  clean_up id force at = go_on (unless_gone force (stop_container world id force at)) (λ _ at'.
      go_on (unless_gone force (delete_container world id at')) (λ _. remove_if_empty force))

  abbrev pub outcome : At W × Result Unit → W × Result Unit
  outcome ((s, w), r) = (w, r)

  abbrev pub clean_up_loaded : Bytes → Bool → W × Result Sandbox → W × Result Unit
  clean_up_loaded id force (w, ok s) = outcome (clean_up id force (s, w))
  clean_up_loaded id force (w, error sandbox_not_found) =
      if not (client_not_exist world.host id w) && not force then (w, error failed) else (w, ok tt)
  clean_up_loaded id force (w, error e) = (w, error e)

  -- CleanupContainer
  unfoldable pub cleanup_container : Bytes → Bytes → Bool → W → W × Result Unit
  unfolding load_sandbox stop_container delete_container stop_sandbox delete_sandbox
      client_not_exist go_on
  cleanup_container sandbox_id container_id force w =
      if is_nil sandbox_id
      then (w, error empty_sandbox_id)
      else if is_nil container_id
      then (w, error empty_container_id)
      else clean_up_loaded container_id force (load_sandbox sandbox_id w)

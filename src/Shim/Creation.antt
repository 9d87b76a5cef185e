-- ===== src/Shim/Creation.antt =====
-- pkg/shim/create.go, utils.go (validBundle, loadSpec), shimContainer.go
-- (newContainer), shim_services.go (New, Create) and pkg/utils/checks.go (ValidContainerID): how a container comes
-- to the service. setupContainer, which mounts the root file system and makes the sandbox, is any operation that tells whether it
-- has mounted; what is said of creation holds for every one.
use micrun.Prelude.{
  ℕ, List, [], ◌∷◌, ◌++◌, Bool, true, false, ◌||◌, ◌&&◌, not, Option, none, some, Bytes, codes, ltb,
  leb, ◌==◌, length, if◌then◌else◌,
}
use micrun.Text.{trim_space, is_digit}
use micrun.Keyed.{lookup, insert}
use micrun.Container.Presence.{is_nil}
use micrun.Pedestal.Essential.{PedType, HostCpus, enable_dom0_cpu_exclusive}
use micrun.Sandbox.Core.{Sandbox}
use micrun.Config.Ini.{Scanned, parse_ini}
use micrun.Config.Discovery.{
  Found, found, MicrunConfigFile, Surroundings, discover_micrun_config_files,
}
use micrun.Config.Runtime.{RuntimeConfig, Setup, new_runtime_config}
use micrun.Config.Stack.{
  runtime_config_keys, convert_raw_config, apply_micrun_files, parse_runtime_config_from_anno,
  micrun_annotation_prefix,
}
use micrun.Oci.Types.{CriNames, get_container_type}
use micrun.Shim.Core.{
  ContainerType, pod_sandbox, ShimContainer, ShimService, invalid_cid, other, created, Outcome,
  done, failed, blocked, panicked, exited, task_create, At, Op, pure, fail, go_on, ◌>>=◌, ◌>>◌, get,
  modify, when, lock, with_lock, send, at_status, pid_or,
}
use micrun.Shim.Configuration.{ShimSpec, Nursery, load_runtime_config}
pub mod Blocked

abbrev is_alnum : ℕ → Bool
is_alnum c = is_digit c || (leb b'a' c && leb c b'z') || (leb b'A' c && leb c b'Z')

abbrev in_pattern : ℕ → Bool
in_pattern c = is_alnum c || c == b'_' || c == b'.' || c == b'-'

all_in_pattern : Bytes → Bool
all_in_pattern [] = true
all_in_pattern (c ∷ s) = in_pattern c && all_in_pattern s

-- ValidContainerID: ^[a-zA-Z0-9][a-zA-Z0-9_.-]+$
unfoldable pub valid_container_id : Bytes → Bool
unfolding all_in_pattern
valid_container_id [] = false
valid_container_id (c ∷ s) =
    leb (length (c ∷ s)) 66 && is_alnum c && not (is_nil s) && all_in_pattern s

pub record CreateRequest : Type 0 where
  pub id : Bytes
  pub bundle : Bytes
  pub stdin : Bytes
  pub stdout : Bytes
  pub stderr : Bytes
  pub terminal : Bool
  pub options : Option Bytes

abbrev pub is_no_process : Option Bool → Bool
is_no_process none = true
is_no_process (some terminal) = false

-- New: neither the map of the containers nor the channel of the exits is made.
unfoldable pub new_service : Bytes → ℕ → ShimService
new_service id pid = record {
  id = id;
  shim_pid = pid;
  config = none;
  containers = [];
  containers_made = false;
  ec_made = false;
  sandbox = none;
  events = [];
  exits = [];
  locked = false;
  shut_down = false;
}

-- newContainer
unfoldable pub new_shim_container :
    ℕ → CreateRequest → ContainerType → ShimSpec → Bool → ShimContainer
new_shim_container shim_pid r c_type spec mounted = record {
  id = r.id;
  annotations = spec.annotations;
  stdin = r.stdin;
  stdout = r.stdout;
  stderr = r.stderr;
  terminal = r.terminal;
  bundle = r.bundle;
  c_type = c_type;
  status = created;
  exit = 0;
  pid = shim_pid;
  exit_time = 0;
  mounted = mounted;
  tty = false;
  stdin_closed = false;
  exit_closed = false;
  exit_once = false;
  watchers = 0;
}

module _ {W : Type 0} (nursery : Nursery W) where
  abbrev pub directory : W → Option Bytes → Option Bytes
  directory w none = none
  directory w (some path) = if nursery.is_dir path w then some path else none

  -- validBundle
  unfoldable pub valid_bundle : Bytes → Bytes → W → Option Bytes
  valid_bundle id bundle w =
      if is_nil id || is_nil bundle then none else directory w (nursery.resolve_path bundle w)

  abbrev pub spec_in : W → Option Bytes → Option ShimSpec
  spec_in w none = none
  spec_in w (some bundle) = nursery.read_spec bundle w

  -- loadSpec
  unfoldable pub load_spec : Bytes → Bytes → W → Option ShimSpec
  unfolding valid_bundle
  load_spec id bundle w = spec_in w (valid_bundle id bundle w)

  -- The error of loadRuntimeConfig is overwritten, and the configuration is nil then.
  abbrev pub attempt : {A : Type 0} → At W × Outcome A → At W × Outcome (Option A)
  attempt (at, done a) = (at, done (some a))
  attempt (at, failed e) = (at, done none)
  attempt (at, blocked) = (at, blocked)
  attempt (at, panicked) = (at, panicked)
  attempt (at, exited) = (at, exited)

  module _
      (setup_container : CreateRequest
        → ContainerType
        → ShimSpec
        → Option RuntimeConfig
        → Op W Bool) where
    -- The pid of the holder of the sandbox's network, for the sandbox of a pod.
    abbrev holder_pid : ContainerType → Option Sandbox → ℕ → ℕ
    holder_pid pod_sandbox (some sandbox) pid =
        if sandbox.config.network.holder_pid == 0 then pid else sandbox.config.network.holder_pid
    holder_pid _ _ pid = pid

    abbrev pub new_with_pid :
        CreateRequest → ContainerType → ShimSpec → Bool → ShimService → ShimContainer
    new_with_pid r c_type spec mounted s =
        let c = new_shim_container s.shim_pid r c_type spec mounted in
        record c { pid = holder_pid c_type s.sandbox c.pid }

    -- disableOutput reads ociSpec.Process.Terminal if the request has a terminal.
    abbrev pub create_typed : CreateRequest → ShimSpec → Option ContainerType → Op W ShimContainer
    create_typed r spec none at = (at, failed other)
    create_typed r spec (some c_type) at =
        if r.terminal && is_no_process spec.process
        then (at, panicked)
        else go_on (attempt (load_runtime_config nursery spec.annotations r.options at))
            (λ config at'.
              go_on (setup_container r c_type spec config at') (λ mounted at''.
                go_on (get at'') (λ s. pure (new_with_pid r c_type spec mounted s))))

    abbrev pub create_with : CreateRequest → Option ShimSpec → Op W ShimContainer
    create_with r none at = (at, failed other)
    create_with r (some spec) at =
        create_typed r spec (get_container_type nursery.names spec.annotations) at

    -- create
    unfoldable pub create_container : CreateRequest → Op W ShimContainer
    unfolding load_spec get_container_type load_runtime_config new_shim_container go_on
    create_container r (s, w) = create_with r (load_spec r.id r.bundle w) (s, w)

    -- s.containers[r.ID] = container, which panics for a nil map
    abbrev pub register : Bytes → ShimContainer → Op W Unit
    register id c (s, w) =
        if s.containers_made
        then ((record s { containers = insert id (at_status created c) s.containers }, w), done tt)
        else ((s, w), panicked)

    abbrev pub create_valid : CreateRequest → Op W ℕ
    create_valid r = do
      c ← create_container r
      with_lock (register r.id c)
      s ← get
      send (task_create r.id (pid_or s.shim_pid c))
      pure (pid_or s.shim_pid c)

    abbrev pub create_if_valid : CreateRequest → Op W ℕ
    create_if_valid r at =
        if valid_container_id r.id then create_valid r at else (at, failed invalid_cid)

    -- Create
    unfoldable pub create : CreateRequest → Op W ℕ
    unfolding valid_container_id with_lock create_container insert go_on
    create r = with_lock (create_if_valid r)

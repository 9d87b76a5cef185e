-- ===== src/Examples/Shim.antt =====
-- The task service with one container: pkg/shim.
use micrun.Prelude.{
  List, [], ◌∷◌, Bool, true, false, Option, some, none, Bytes, codes, ◌≡◌, refl, inl, inr, subst,
  Bool-cases,
}
use micrun.Keyed.{lookup, bytes_eq→eq}
use micrun.Mica.Executor.{bytes_eq}
use micrun.Pedestal.Essential.{xen, host_cpu_counts}
use micrun.Config.Discovery.{listing}
use micrun.Config.Runtime.{RuntimeConfig}
use micrun.Oci.Types.{get_container_type}
use micrun.Shim.Core.{
  ContainerType, ShimContainer, ShimService, single_container, Op, pure, blocked, task_start,
  task_paused, other,
}
use micrun.Shim.Start.{Streams}
use micrun.Shim.Ending.{Ground, request_container_kill, sigkill}
use micrun.Shim.Watching.{canceled, wait_container_exit}
use micrun.Shim.Events.{start, paused, forward, listen_and_report_exits}
use micrun.Shim.Requests.{close_io}
use micrun.Shim.Configuration.{ShimSpec, Nursery}
use micrun.Shim.Creation.{
  CreateRequest, create, new_service, new_shim_container, valid_container_id, load_spec,
}
use micrun.Shim.Creation.Blocked.{create-blocked}
use micrun.Shim.Tidy.{Tidy, Sound}
use micrun.Shim.Keeping.{Never}
use micrun.Shim.Rules.{Ends}
use micrun.Shim.Outcome.{HasSome, Closed, Anyhow}
use micrun.Shim.Outcome.Kill.{request_container_kill_lem}
use micrun.Shim.Outcome.Watch.{Ended, wait_container_exit_lem}
use micrun.Shim.Runs.{Request, starts, pauses, kills, deletes, Frees, serve, perform, serve-Frees}
use micrun.Shim.Runs.Stuck.{creates, asks, Empty, perform_all, close_io-blocked, new_service-Empty}
use micrun.Examples.Client.{Sent}
use micrun.Examples.Sandbox.{world, sandbox}
use micrun.Examples.Oci.{names}

abbrev streams : Streams Sent
streams = record { scheme = λ path. some []; open_fifo = λ path sent. (sent, true) }

abbrev outside : Ground Sent
outside = record { unmount_all = λ path sent. (sent, true); now = λ sent. 7 }

abbrev request : CreateRequest
request = record {
  id = codes "rtos";
  bundle = codes "/bundle";
  stdin = [];
  stdout = [];
  stderr = [];
  terminal = false;
  options = none;
}

abbrev task : ShimContainer
task =
    new_shim_container 77 request single_container
      (record { annotations = []; process = some false }) true

abbrev service : ShimService
service = record (new_service (codes "rtos") 77) {
  containers = (codes "rtos", task) ∷ [];
  containers_made = true;
  sandbox = some sandbox;
}

task-only :
    (id : Bytes) (c : ShimContainer)
    → lookup id service.containers ≡ some c
    → (codes "rtos" ≡ id) × (task ≡ c)
unfolding lookup new_service
task-only id c e = elim (Bool-cases (bytes_eq (codes "rtos") id)) [
  | inl same ↦ let h : some task ≡ some c = rw same at e in (bytes_eq→eq (codes "rtos") id same, cc)
  | inr apart ↦ absurd (let h : none ≡ some c = rw apart at e in cc)
]

service-Tidy : Tidy service
unfolding new_shim_container
service-Tidy = record {
  its_id = λ id c e.
      let (same, is) = task-only id c e in subst (λ (z : ShimContainer). z.id ≡ id) is same;
  sound = λ id c e. let (same, is) = task-only id c e in subst Sound is (λ h. cc);
}

abbrev requests : List Request
requests =
    starts (codes "rtos") []
    ∷ pauses (codes "rtos")
    ∷ kills (codes "rtos") [] sigkill
    ∷ deletes (codes "rtos") []
    ∷ []

serve-Frees_example : Frees (serve world streams outside requests (service, []))
unfolding new_service
serve-Frees_example = serve-Frees world streams outside requests service [] (refl, service-Tidy)

-- A directory with a specification that names no type.
abbrev nursery : Nursery Sent
nursery = record {
  names = names;
  ped = xen;
  high = 1024;
  resolve_path = λ path sent. some path;
  is_dir = λ path sent. true;
  read_spec = λ bundle sent. some (record { annotations = []; process = some false });
  config_env = λ sent. [];
  surroundings = λ sent. record {
    conf_file = [];
    conf_dir = [];
    is_regular = λ path. false;
    exists = λ path. false;
    read_dir = λ path. listing [];
    inside = λ dir name. name;
  };
  scan = λ sent path. none;
  path_from_options = λ options. some [];
  host_cpus = λ sent. host_cpu_counts xen 4 2;
  set_host_cpus = λ host sent. sent;
}

abbrev setup : CreateRequest → ContainerType → ShimSpec → Option RuntimeConfig → Op Sent Bool
setup r c_type spec config = pure true

abbrev new : ShimService
new = new_service (codes "rtos") 77

create-blocked_example :
    create nursery setup request (new, []) ≡ ((record new { locked = true }, []), blocked)
unfolding new_service valid_container_id load_spec get_container_type
create-blocked_example = create-blocked nursery setup request new [] refl

new_service-Empty_example :
    Empty
      (perform_all world streams outside nursery setup
        (creates request ∷ asks (starts (codes "rtos") []) ∷ [])
        (new_service (codes "rtos") 77, [])).0
new_service-Empty_example =
    new_service-Empty world streams outside nursery setup
      (creates request ∷ asks (starts (codes "rtos") []) ∷ []) (codes "rtos") 77 []

close_io-blocked_example :
    (close_io world outside (codes "rtos") [] true (service, [])
      ≡ ((record service { locked = true }, []), blocked))
    × ((r : Request)
        → perform world streams outside r (record service { locked = true }, [])
          ≡ ((record service { locked = true }, []), blocked))
unfolding new_service new_shim_container lookup
close_io-blocked_example =
    close_io-blocked world streams outside (codes "rtos") task service [] refl refl refl refl

request_container_kill_lem_example :
    Ends Never Never Anyhow
      (λ _. HasSome (codes "rtos") false Closed)
      (request_container_kill world outside (codes "rtos") sigkill (service, []))
unfolding new_service new_shim_container lookup
request_container_kill_lem_example =
    request_container_kill_lem world outside (codes "rtos") service []
      (task, (refl, refl), refl, λ h. cc, refl)

wait_container_exit_lem_example :
    Ends Never Never Anyhow
      (λ _. HasSome (codes "rtos") false Ended)
      (wait_container_exit world outside canceled (codes "rtos") (service, []))
unfolding new_service new_shim_container lookup
wait_container_exit_lem_example =
    wait_container_exit_lem world outside (codes "rtos") canceled service []
      (task, (refl, refl), refl, λ h. cc, refl)

-- What is of no known kind is not published.
forward_run :
    forward (task_start (codes "rtos") 77 ∷ other ∷ task_paused (codes "rtos") ∷ [])
    ≡ (start, task_start (codes "rtos") 77) ∷ (paused, task_paused (codes "rtos")) ∷ []
unfolding forward
forward_run = refl

-- The channel of the exits is nil, so that no exit is reported.
listen_and_report_exits_run : listen_and_report_exits {W = Sent} (new, []) ≡ ((new, []), blocked)
unfolding new_service listen_and_report_exits
listen_and_report_exits_run = refl

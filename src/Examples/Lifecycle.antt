-- ===== src/Examples/Lifecycle.antt =====
-- The life of a container: pkg/micantainer/container.go.
use micrun.Mica.Buffer.{trim_right_nul, copy_into}
use micrun.Pedestal.Essential.{init_resource}
use micrun.Mica.Executor.{
  need_update_cpu_cap, update_cpu_capacity, need_update_mem_limit, need_update_cpu_set,
  read_resource, update_pcpu_constrains, need_update_cpu_share, update_cpu_weight,
  need_update_vcpus,
}
use micrun.Prelude.{
  Bool, Bytes, some, pos, u32, ◌≡◌, ◌≢◌, refl, List, [], ◌∷◌, true, false, none, codes,
}
use micrun.Mica.Host.{Host}
use micrun.Mica.Executor.{new_executor}
use micrun.Mica.Control.{client_not_exist, start_client}
use micrun.Mica.Socket.{mica_success, mica_failed, handle_msg, rx, receive}
use micrun.Text.{trim_space}
use micrun.Resources.{LinuxCpu, LinuxResources, no_cpu, no_resources}
use micrun.Mica.Command.{MicaCommand}
use micrun.Mica.Executor.{recorded_cpus}
use micrun.Mica.Executor.Memory.{new_executor-Covers}
use micrun.Mica.Executor.Update.{update_container_resource}
use micrun.Container.Update.{extract_changes}
use micrun.Container.Update.Forgotten.{extract_changes-forgotten}
use micrun.Container.State.{StateString, ready, running, stopped, paused, down}
use micrun.Container.Core.{
  and_then, ask, Container, Outside, ok, error, failed, container_not_found,
}
use micrun.Container.Presence.{ensure_client_presence}
use micrun.Container.Lifecycle.{start, stop, kill, pause, resume, start_container_client}
use micrun.Container.Lifecycle.Runs.{
  Call, starting, stopping, killing, pausing, resuming, perform_all,
}
use micrun.Container.Lifecycle.Notifier.{Notified, perform_all-Notified}
use micrun.Container.Lifecycle.Outcome.{Leaves, lifecycle-Leaves}
use micrun.Container.Lifecycle.Failure.{ensure_client_presence-absent, start-failed}
use micrun.Examples.Client.{Sent, answering}
use micrun.Examples.Limits.{config}

-- Files that can all be read and written.
abbrev with_files : Host Sent → Outside Sent
with_files host = record {
  host = host;
  firmware = λ path sent. true;
  save_state = λ c sent. (sent, true);
  store_sandbox = λ sent. (sent, true);
  terminate = λ sent. (sent, true);
}

abbrev healthy : Outside Sent
healthy = with_files (answering [] mica_success)

abbrev refusing : Outside Sent
refusing = with_files (answering [] mica_failed)

abbrev without_sockets : Outside Sent
without_sockets = with_files (record (answering [] mica_success) { socket = λ path sent. false })

abbrev in_state : StateString → Container
in_state s = record {
  config = config;
  me = new_executor (codes "rtos");
  state = s;
  infra_cmd = false;
  exit_notifier = none;
  channels = 0;
  closed = [];
}

abbrev calls : List Call
calls = starting ∷ pausing ∷ resuming running ∷ stopping false ∷ starting ∷ killing running ∷ []

named : config.id ≢ []
named = λ e. cc

down-Notified : Notified (in_state down)
down-Notified = record {
  channels = record { once = tt; made = tt; opened = tt };
  while_alive = refl;
}

perform_all-Notified_example : Notified (perform_all healthy calls (in_state down, [])).0
perform_all-Notified_example =
    perform_all-Notified healthy calls (in_state down) [] down-Notified named refl

lifecycle-Leaves_example :
    Leaves running (start healthy (in_state ready) [])
    × Leaves stopped (stop healthy true (in_state ready) [])
    × Leaves stopped (kill healthy running (in_state ready) [])
    × Leaves paused (pause healthy (in_state ready) [])
    × Leaves running (resume healthy running (in_state ready) [])
lifecycle-Leaves_example = lifecycle-Leaves healthy true running (in_state ready) [] named refl

ensure_client_presence-absent_example :
    ensure_client_presence without_sockets (in_state down) []
    ≡ (in_state down, [], error container_not_found)
unfolding client_not_exist
ensure_client_presence-absent_example =
    ensure_client_presence-absent without_sockets (in_state down) [] named refl refl refl

start-failed_example :
    ((start refusing (in_state ready) []).2 ≡ ok tt)
    × ((start refusing (in_state ready) []).0.state ≡ running)
unfolding ensure_client_presence start_container_client and_then ask client_not_exist start_client
    handle_msg rx receive
start-failed_example =
    let r = start_container_client refusing (in_state ready) [] in
    start-failed refusing (in_state ready) r.0 [] r.1 failed refl refl refl refl (λ d v. refl)
      (λ v. refl)

-- Half of a CPU, and no word of which CPUs.
abbrev half_a_cpu : LinuxCpu
half_a_cpu = record no_cpu { quota = some (pos 50000); period = some 100000 }

abbrev half_resources : LinuxResources
half_resources = record no_resources { cpu = some half_a_cpu }

abbrev accepting_all : MicaCommand → Bytes → List Bytes → Sent → Sent × Bool
accepting_all cmd id opts sent = (sent, true)

extract_changes-forgotten_example :
    let me' =
      (update_container_resource accepting_all 4
        (extract_changes half_resources).0
        (new_executor (codes "rtos"))
        []).1 in
    (u32 me'.cpu_capacity ≡ 0) × (trim_space (recorded_cpus me') ≡ [])
unfolding update_container_resource extract_changes need_update_cpu_cap new_executor
    update_cpu_capacity need_update_mem_limit need_update_cpu_set trim_space read_resource
    trim_right_nul copy_into update_pcpu_constrains need_update_cpu_share update_cpu_weight
    init_resource need_update_vcpus
extract_changes-forgotten_example =
    extract_changes-forgotten accepting_all 4 half_resources half_a_cpu
      (new_executor (codes "rtos")) [] (new_executor-Covers (codes "rtos")) refl refl refl

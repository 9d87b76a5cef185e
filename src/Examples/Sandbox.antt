-- ===== src/Examples/Sandbox.antt =====
-- A sandbox with one container: pkg/micantainer/sandbox.go.
use micrun.Prelude.{
  Bool, Bytes, some, none, true, false, ◌≡◌, refl, List, [], ◌∷◌, codes, inl, inr, ap, sym, subst,
  ℕ,
}
use micrun.Container.Making.{valid_mica_container}
use micrun.Text.{trim_space, split, atoi, join, itoa}
use micrun.Cpuset.Parse.{read_cpu}
use micrun.Cpuset.Print.{to_string}
use micrun.Cpuset.{is_empty, union, put, to_slice}
use micrun.Sorting.{sort_ints}
use micrun.Sandbox.Pinning.{get_sandbox_cpuset_str}
use micrun.Container.State.{sandbox_transition}
use micrun.Container.Core.{and_then, ask}
use micrun.Mica.Control.{client_not_exist, create_client}
use micrun.Mica.Socket.{handle_msg, rx, receive}
use micrun.Resources.{cpu_mask}
use micrun.Pedestal.CpuArray.{parse_cpu_arr}
use micrun.Mica.Control.{mica_ctl}
use micrun.Mica.Executor.{new_executor, record_memory_state}
use micrun.Mica.Update.{handle_mica_update_with_xl, xl_as_mica_update}
use micrun.Sandbox.Core.{store_sandbox, find}
use micrun.Keyed.{keys, has, lookup, insert, insert_cases}
use micrun.Pedestal.Essential.{xen}
use micrun.Resources.{ContainerConfig}
use micrun.Cpuset.{contains}
use micrun.Cpuset.Parse.{parse}
use micrun.Mica.Socket.{mica_success}
use micrun.Container.State.{ready, running, stopped}
use micrun.Container.Core.{ok, Container}
use micrun.Container.Fit.{Fit}
use micrun.Container.Making.{blank}
use micrun.Sandbox.Core.{Sandbox, SandboxConfig, World, missing}
use micrun.Sandbox.Setup.{no_resource}
use micrun.Sandbox.Lifecycle.{start_sandbox, stop_sandbox, normalize}
use micrun.Sandbox.Members.{create_container, delete_container}
use micrun.Sandbox.Refinement.{to_pause, Obeys, carry_out, container_orders_lem}
use micrun.Sandbox.Rules.{IsValid}
use micrun.Sandbox.Rules.Results.{Yields}
use micrun.Sandbox.Outcome.{Between, StoreFailed, AllIn, start_sandbox_lem}
use micrun.Sandbox.Outcome.Stop.{Stops, stop_sandbox_lem}
use micrun.Sandbox.Upkeep.Awaiting.{With}
use micrun.Sandbox.Upkeep.Deletion.{Gone, delete_container-Yields}
use micrun.Sandbox.Upkeep.Creation.{create_container_lem}
use micrun.Sandbox.Upkeep.Leftover.{Leftover, create_container-Leftover}
use micrun.Sandbox.Pinning.Merging.{own_cpus, asked_for, get_sandbox_cpuset_str_lem}
use micrun.Sandbox.Runs.{
  Request, starts, stops, creates, pauses, resumes, kills, removes, waits, perform_requests,
  perform_requests-IsValid,
}
use micrun.Sandbox.Calls.{done}
use micrun.Examples.Client.{Sent, answering}
use micrun.Examples.Limits.{config}

-- A system that grants everything, and on which files are there.
abbrev pub granting : (Bytes → Bool) → World Sent
granting there = record {
  host = answering [] mica_success;
  physical = 4;
  firmware = λ path sent. true;
  regular = λ path sent. there path;
  save_state = λ c sent. (sent, true);
  saved_state = λ id sent. none;
  terminate = λ sent. (sent, true);
  remove_cache = λ id sent. sent;
  mkdir_all = λ path sent. (sent, true);
  save_json = λ path storage sent. (path ∷ sent, true);
  read_json = λ path sent. missing;
  remove_all = λ path sent. (path ∷ sent, true);
  netns_cleanup = λ id pid sent. (sent, true);
}

abbrev pub world : World Sent
world = granting (λ path. true)

abbrev without_images : World Sent
without_images = granting (λ path. false)

abbrev pub sandbox_config : SandboxConfig
sandbox_config = record {
  id = codes "pod";
  hostname = codes "pod";
  network = record { network_id = []; network_created = false; holder_pid = 0 };
  ped_type = xen;
  mini_vcpu_num = 1;
  container_configs = (codes "rtos", config) ∷ [];
  annotations = [];
  enable_vcpus_pinning = true;
  shared_cpu_pool = false;
  static_resource_mgmt = false;
  huge_page_support = false;
  infra_only = false;
}

abbrev pub sandbox : Sandbox
sandbox = record {
  id = codes "pod";
  config = sandbox_config;
  containers = (codes "rtos", blank config) ∷ [];
  state = ready;
  res = no_resource;
  vcpu_already_pinned = false;
}

blank-Fit : Fit (codes "rtos") (blank config)
blank-Fit = record {
  notified = record { channels = record { once = tt; made = tt; opened = tt }; while_alive = refl };
  its_id = refl;
  named = λ e. cc;
  created = refl;
}

single :
    (id : Bytes) (c : Container)
    → lookup id sandbox.containers ≡ some c
    → (codes "rtos" ≡ id) × (c ≡ blank config)
unfolding lookup insert
single id c h = elim (insert_cases (codes "rtos") id (blank config) c [] h) [
  | inl e ↦ e
  | inr (apart, there) ↦ cc
]

sandbox-IsValid : IsValid sandbox
unfolding lookup
sandbox-IsValid = record {
  fit = λ id c h.
      let (e, e') = single id c h in
      subst (Fit id) (sym e') (subst (λ k. Fit k (blank config)) e blank-Fit);
  shared = λ id c h.
      let (e, e') = single id c h in
      subst (λ k. lookup k sandbox.config.container_configs ≡ some c.config) e
        (ap (λ (z : Container). some z.config) (sym e'));
}

abbrev another : ContainerConfig
another = record config { id = codes "linux" }

abbrev requests : List Request
requests =
    starts
    ∷ creates another
    ∷ pauses (codes "rtos")
    ∷ waits done (codes "linux")
    ∷ resumes (codes "rtos")
    ∷ kills (codes "linux")
    ∷ removes (codes "rtos")
    ∷ stops false
    ∷ []

perform_requests-IsValid_example : IsValid (perform_requests world requests (sandbox, [])).0
perform_requests-IsValid_example =
    perform_requests-IsValid world (λ id w. tt) requests sandbox [] sandbox-IsValid

start_sandbox_lem_example :
    Yields
      (Between (StoreFailed world) (normalize world sandbox).state running)
      (λ _. AllIn running)
      (start_sandbox world (sandbox, []))
start_sandbox_lem_example = start_sandbox_lem world sandbox [] sandbox-IsValid

stop_sandbox_lem_example :
    Yields (Stops world ready) (λ _. AllIn stopped) (stop_sandbox world false (sandbox, []))
stop_sandbox_lem_example = stop_sandbox_lem world sandbox [] sandbox-IsValid refl

create_container_lem_example :
    Yields
      (Gone (codes "linux"))
      (With (codes "linux"))
      (create_container world another (sandbox, []))
unfolding has valid_mica_container
create_container_lem_example =
    create_container_lem world (λ id w. tt) another sandbox [] sandbox-IsValid refl (λ v. refl)

create_container-Leftover_example :
    Leftover without_images
      (λ id w. tt)
      another
      (create_container without_images another (sandbox, []))
unfolding has valid_mica_container
create_container-Leftover_example =
    create_container-Leftover without_images (λ id w. tt) another sandbox [] sandbox-IsValid refl
      (λ e. cc) (λ v. refl)

delete_container-Yields_example :
    Yields IsValid (λ _. Gone (codes "rtos")) (delete_container world (codes "rtos") (sandbox, []))
delete_container-Yields_example =
    delete_container-Yields world (codes "rtos") sandbox [] sandbox-IsValid

get_sandbox_cpuset_str_lem_example :
    let r = (parse (codes "1-2,9")) in
    (r.1 ≡ none) × ((x : ℕ) → contains r.0 x ≡ asked_for x sandbox_config.container_configs)
unfolding get_sandbox_cpuset_str trim_space parse split read_cpu atoi to_string is_empty union put
    to_slice sort_ints join itoa own_cpus cpu_mask
get_sandbox_cpuset_str_lem_example =
    get_sandbox_cpuset_str_lem sandbox_config.container_configs (codes "1-2,9") [] refl refl

-- The sandbox starts and its container runs, and the new container is made: no error on the way.
start_sandbox_run :
    ((start_sandbox world (sandbox, [])).1 ≡ ok tt)
    × ((start_sandbox world (sandbox, [])).0.0.state ≡ running)
unfolding start_sandbox sandbox_transition keys lookup and_then client_not_exist ask create_client
    handle_msg rx receive
start_sandbox_run = (refl, refl)

create_container_run :
    has (codes "linux") (create_container world another (sandbox, [])).0.0.containers ≡ true
unfolding has create_container valid_mica_container client_not_exist and_then ask create_client
    handle_msg rx receive trim_space parse split read_cpu atoi is_empty union put to_slice sort_ints
    join itoa to_string insert lookup keys get_sandbox_cpuset_str cpu_mask parse_cpu_arr mica_ctl
    new_executor handle_mica_update_with_xl xl_as_mica_update record_memory_state store_sandbox find
create_container_run = refl

container_orders_lem_example :
    Obeys world to_pause
      (codes "rtos")
      sandbox
      []
      (carry_out world to_pause (codes "rtos") (sandbox, []))
container_orders_lem_example =
    container_orders_lem world to_pause (codes "rtos") sandbox [] sandbox-IsValid

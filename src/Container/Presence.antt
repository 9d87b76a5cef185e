-- ===== src/Container/Presence.antt =====
-- pkg/micantainer/container.go and utils.go: whether the client of a container is there, and its
-- registration.
use micrun.Prelude.{ℕ, [], ◌∷◌, Bool, true, false, ◌&&◌, not, Bytes, codes, ◌==◌, if◌then◌else◌}
use micrun.Resources.{
  ContainerConfig, cpu_capacity, cpu_shares, cpu_mask, memory_limit_mb, memory_reservation_mb,
  container_max_mem_mb, default_min_mem_mb,
}
use micrun.Pedestal.Weight.{share_to_weight}
use micrun.Pedestal.Essential.{PedType, is_xen}
use micrun.Mica.ClientConf.{CreateOptions, init_with_opts}
use micrun.Mica.Executor.{Executor, record_memory_state}
use micrun.Mica.Control.{client_not_exist, create_client}
use micrun.Container.State.{StateString, ready, down, same}
use micrun.Container.Core.{
  Container, Outside, container_not_found, failed, Result, ok, error, Step, and_then, ask,
  set_container_state,
}

abbrev pub is_nil : Bytes → Bool
is_nil [] = true
is_nil (_ ∷ _) = false

-- PedType.String
abbrev pub ped_name : PedType → Bytes
ped_name ped = if is_xen ped then codes "xen" else codes "unknown"

-- The options of createMicaClientConf. GetClientCPU is the mask, which is empty if it is not set.
unfoldable pub client_options : PedType → ContainerConfig → CreateOptions
client_options ped cfg = record {
  cpu = cpu_mask cfg;
  name = cfg.id;
  path = cfg.image_abs_path;
  ped = ped_name ped;
  ped_cfg = cfg.pedestal_conf;
  vcpus = if cfg.vcpu_num == 0 then 1 else cfg.vcpu_num;
  cpu_weight = share_to_weight (cpu_shares cfg);
  cpu_capacity = cpu_capacity cfg;
  memory_mb = container_max_mem_mb cfg;
  max_vcpus = cfg.max_vcpu_num;
  memory_threshold = cfg.memory_threshold_mb;
  io_mem = [];
  network = [];
}

-- The memory that registerClient records for a new client, and its threshold.
unfoldable pub initial_mem : ContainerConfig → ℕ
initial_mem cfg =
    if not (memory_limit_mb cfg == 0)
    then memory_limit_mb cfg
    else if not (memory_reservation_mb cfg == 0)
    then memory_reservation_mb cfg
    else default_min_mem_mb

unfoldable pub record_threshold : ContainerConfig → ℕ
unfolding initial_mem
record_threshold cfg = if memory_limit_mb cfg == 0 then initial_mem cfg else memory_limit_mb cfg

abbrev pub with_executor : Executor → Container → Container
with_executor me c = record c { me = me }

module _ {W : Type 0} (outside : Outside W) where
  abbrev pub absent : Container → W → Bool
  absent c w = client_not_exist outside.host c.config.id w

  abbrev pub gone : Container × W × Result Unit → Container × W × StateString
  gone (c, w, _) = (c, w, down)

  abbrev pub mark_down : Container → W → Container × W × StateString
  mark_down c w =
      let marked = gone (set_container_state outside down c w) in
      if same c.state down then (c, w, down) else marked

  -- checkState
  unfoldable pub check_state : Container → W → Container × W × StateString
  unfolding set_container_state
  check_state c w =
      if is_nil c.config.id
      then (c, w, down)
      else if c.config.is_infra
      then (c, w, c.state)
      else if absent c w
      then mark_down c w
      else (c, w, c.state)

  abbrev pub record_memory : Step W Unit
  record_memory c w = (
    with_executor (record_memory_state (initial_mem c.config) (record_threshold c.config) c.me) c,
    w,
    ok tt,
  )

  -- registerClient
  unfoldable pub register_client : Step W Unit
  unfolding set_container_state
  register_client c w =
      let conf = init_with_opts (client_options outside.host.ped c.config) in
      let registered =
        and_then (ask failed (create_client outside.host conf) c w) (λ _ c'' w''.
          and_then (record_memory c'' w'') (λ _. set_container_state outside ready)) in
      if outside.firmware c.config.image_abs_path w then registered else (c, w, error failed)

  abbrev pub found : Container × W × StateString → Container × W × Result StateString
  found (c, w, s) = if same s down then (c, w, error container_not_found) else (c, w, ok s)

  abbrev pub second_look : Container × W × Result Unit → Container × W × Result StateString
  second_look r = and_then r (λ _ c w. found (check_state c w))

  -- shouldPresent
  abbrev pub should_present : Container → Bool
  should_present c = not c.config.is_infra

  abbrev pub first_look : Container × W × StateString → Container × W × Result StateString
  first_look (c, w, s) =
      let registered = second_look (register_client c w) in
      let unregistered = second_look (c, w, ok tt) in
      if not (same s down)
      then (c, w, ok s)
      else if should_present c && not (absent c w)
      then registered
      else unregistered

  -- ensureClientPresence
  unfoldable pub ensure_client_presence : Step W StateString
  unfolding check_state register_client
  ensure_client_presence c w = first_look (check_state c w)

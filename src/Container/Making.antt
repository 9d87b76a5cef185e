-- ===== src/Container/Making.antt =====
-- pkg/micantainer/container.go: newContainer, create, Signal, validMicaContainer, winresize,
-- setVcpuAffinity and the part of delete that is the container's own. RestoreState is the state that the files hold, if they can be read;
-- utils.IsRegular is the file system's.
use micrun.Prelude.{
  List, [], ◌∷◌, Bool, true, false, ◌&&◌, ◌||◌, not, Option, none, some, Bytes, codes,
  if◌then◌else◌, u32,
}
use micrun.Resources.{ContainerConfig, ensure_cpu, ensure_resources}
use micrun.Cpuset.{CpuSet, to_slice, size}
use micrun.Cpuset.Print.{to_string}
use micrun.Pedestal.Essential.{PedType, is_xen}
use micrun.Mica.Executor.{new_executor, vcpu_pin, bytes_eq}
use micrun.Mica.Control.{mica_ctl, remove_client}
use micrun.Container.State.{StateString, ready, running, stopped, paused, down, same}
use micrun.Container.Core.{
  Container, Outside, refused, failed, Result, ok, error, Step, and_then, ask, set_container_state,
  update_exit_notifier, with_state,
}
use micrun.Container.Presence.{check_state, ensure_client_presence}
use micrun.Container.Lifecycle.{from_executor}

-- defs.TrustyOS
abbrev pub trusty_os : List Bytes
trusty_os = codes "zephyr" ∷ codes "uniproton" ∷ codes "linux" ∷ codes "liteos" ∷ []

-- utils.InList
unfoldable pub in_list : List Bytes → Bytes → Bool
in_list [] item = false
in_list (v ∷ vs) item = bytes_eq v item || in_list vs item

-- validOS
unfoldable pub valid_os : Bytes → Bool
unfolding in_list
valid_os os = in_list trusty_os os

module _ (regular : Bytes → Bool) where
  -- validComponent: what the ELF header and the image's magic say changes nothing.
  abbrev pub valid_component : Bytes → Bool
  valid_component path = regular path

  -- validMicaContainer
  unfoldable pub valid_mica_container : PedType → ContainerConfig → Bool
  unfolding valid_os
  valid_mica_container ped cfg =
      let fw = valid_component cfg.image_abs_path in
      let fw' = if is_xen ped then valid_component cfg.pedestal_conf && fw else fw in
      if cfg.is_infra then true else valid_os cfg.os && fw'

-- The struct that newContainer starts from.
abbrev pub blank : ContainerConfig → Container
blank cfg = record {
  config = cfg;
  me = new_executor cfg.id;
  state = down;
  infra_cmd = false;
  exit_notifier = none;
  channels = 0;
  closed = [];
}

-- RestoreState; without a state on disk it is only logged that there is none.
unfoldable pub restore_state : Option StateString → Container → Container
unfolding update_exit_notifier
restore_state none c = c
restore_state (some s) c = update_exit_notifier s (with_state s c)

-- The states from which delete goes on.
abbrev pub may_delete : StateString → Bool
may_delete s = same s ready || same s paused || same s stopped

module _ {W : Type 0} (outside : Outside W) where
  abbrev pub noticed : Container × W × StateString → Container × W
  noticed (c, w, s) = (update_exit_notifier s c, w)

  -- newContainer, for an id that is not empty
  unfoldable pub new_container : Option StateString → ContainerConfig → W → Container × W
  unfolding check_state restore_state
  new_container saved cfg w = noticed (check_state outside (restore_state saved (blank cfg)) w)

  -- create
  unfoldable pub create : Step W Unit
  unfolding ensure_client_presence set_container_state
  create c w =
      if c.config.is_infra
      then set_container_state outside ready c w
      else and_then (ensure_client_presence outside c w) (λ _. set_container_state outside ready)

  -- The removal of the client by delete.
  abbrev pub remove_unless_infra : Step W Unit
  remove_unless_infra c w =
      if c.config.is_infra
      then (c, w, ok tt)
      else ask failed (remove_client outside.host c.config.id) c w

  abbrev pub signal_from : StateString → Step W Unit
  signal_from s c w =
      if not (same s running) && not (same s ready) && not (same s paused)
      then (c, w, error refused)
      else (c, w, ok tt)

  -- Signal; notOperational is that the sandbox is neither ready nor running.
  unfoldable pub signal : StateString → Step W Unit
  unfolding ensure_client_presence
  signal sandbox c w =
      if not (same sandbox ready) && not (same sandbox running)
      then (c, w, error refused)
      else and_then (ensure_client_presence outside c w) signal_from

  abbrev pub resize_from : Container × W × StateString → Container × W × Result Unit
  resize_from (c, w, s) =
      if not (same s ready) && not (same s running) then (c, w, error refused) else (c, w, ok tt)

  -- winresize, over notOperational
  unfoldable pub winresize : Step W Unit
  unfolding check_state
  winresize c w = resize_from (check_state outside c w)

  -- What setVcpuAffinity records of a set.
  abbrev pub pinned_config : CpuSet → ContainerConfig → ContainerConfig
  pinned_config set cfg = record cfg {
    vcpu_num = u32 (size set);
    pcpu_num = u32 (size set);
    resources = some (record (ensure_resources cfg) {
      cpu = some (record (ensure_cpu cfg) { cpus = to_string set });
    });
  }

  abbrev pub record_pinning : CpuSet → Step W Unit
  record_pinning set c w = (record c { config = pinned_config set c.config }, w, ok tt)

  -- setVcpuAffinity
  unfoldable pub set_vcpu_affinity : CpuSet → Step W Unit
  unfolding vcpu_pin to_string ensure_cpu
  set_vcpu_affinity set c w =
      and_then (from_executor outside c (vcpu_pin (mica_ctl outside.host) (to_slice set) c.me w))
        (λ _. record_pinning set)

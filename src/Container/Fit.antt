-- ===== src/Container/Fit.antt =====
-- pkg/micantainer/container.go: a container that is fit for its id.
use micrun.Prelude.{[], if◌then◌else◌, ◌≡◌, ◌≢◌, refl, ◌∙◌, false, Bytes, arith, ap}
use micrun.Resources.{ContainerConfig}
use micrun.Mica.Executor.{Executor}
use micrun.Container.State.{StateString, creating, same}
use micrun.Container.Core.{Container, Outside, Step, update_exit_notifier, with_state}
use micrun.Container.Lifecycle.Rules.{Kept}
use micrun.Container.Lifecycle.Notifier.{Notified, update_exit_notifier-Notified}
pub mod Fresh
pub mod Operations

pub record Fit (id : Bytes) (c : Container) : Type 0 where
  pub notified : Notified c
  pub its_id : c.config.id ≡ id
  pub named : id ≢ []
  pub created : same c.state creating ≡ false

pub changed-Fit :
    (s : StateString) (id : Bytes) (c : Container)
    → Fit id c
    → same s creating ≡ false
    → Fit id (update_exit_notifier s (with_state s c))
unfolding update_exit_notifier
changed-Fit s id c h n =
    let kept : ((update_exit_notifier s (with_state s c)).config ≡ c.config)
        × ((update_exit_notifier s (with_state s c)).state ≡ s) =
      ground arith in
    record {
      notified = update_exit_notifier-Notified s c h.notified.channels;
      its_id = ap (λ cfg. cfg.id) kept.0 ∙ h.its_id;
      named = h.named;
      created = ap (λ z. same z creating) kept.1 ∙ n;
    }

-- A change of the rest of the record.
pub config-Fit :
    (cfg : ContainerConfig) (me : Executor) (id : Bytes) (c : Container)
    → cfg.id ≡ c.config.id
    → Fit id c
    → Fit id (record c { config = cfg; me = me })
config-Fit cfg me id c e h = record {
  notified = record {
    channels = record {
      once = h.notified.channels.once;
      made = h.notified.channels.made;
      opened = h.notified.channels.opened;
    };
    while_alive = h.notified.while_alive;
  };
  its_id = e ∙ h.its_id;
  named = h.named;
  created = h.created;
}

pub config_same :
    (s : StateString) (c : Container) → (update_exit_notifier s (with_state s c)).config ≡ c.config
unfolding update_exit_notifier
config_same s c = ground arith

abbrev pub kept : {W : Type 0} → Bytes → Outside W → Kept W
kept id outside = record {
  outside = outside;
  Holds = λ c. Notified c × (c.config.id ≡ id);
  moved = λ s c _ h.
      (update_exit_notifier-Notified s c h.0.channels, ap (λ cfg. cfg.id) (config_same s c) ∙ h.1);
  recorded = λ me c h. (
    record {
      channels = record {
        once = h.0.channels.once;
        made = h.0.channels.made;
        opened = h.0.channels.opened;
      };
      while_alive = h.0.while_alive;
    },
    h.1,
  );
}

-- An operation keeps `Fit`.
abbrev pub KeepsFit : {W A : Type 0} → (Outside W → Step W A) → Type 0
KeepsFit {W} op =
    (outside : Outside W) (id : Bytes) (c : Container) (w : W)
    → Fit id c
    → Fit id (op outside c w).0

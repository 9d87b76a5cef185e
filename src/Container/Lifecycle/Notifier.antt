-- ===== src/Container/Lifecycle/Notifier.antt =====
-- pkg/micantainer/container.go: the exit notifier in every operation.
use micrun.Prelude.{
  ℕ, ◌+◌, ◌<◌, ◌≤◌, ◌≡◌, ◌≢◌, refl, List, [], ◌∷◌, Bool, true, false, ◌||◌, Option, none, some,
  arith, All, All-map, subst, elem, not,
}
use micrun.Container.Lifecycle.Rules.{Kept, Sound}
use micrun.Container.Lifecycle.Runs.{Call, perform_all, perform_all-Sound}
use micrun.Container.State.{StateString, ready, running, stopped, creating, paused, down, same}
use micrun.Container.Core.{
  Container, Outside, update_exit_notifier, with_state, close_notifier, open_notifier,
}

abbrev present : Option ℕ → Bool
present none = false
present (some _) = true

-- A list without repetition.
abbrev Once : List ℕ → Type 0
Once [] = Unit
Once (n ∷ ns) = (elem n ns ≡ false) × Once ns

abbrev Open : Option ℕ → List ℕ → ℕ → Type 0
Open none closed channels = Unit
Open (some n) closed channels = (n < channels) × (elem n closed ≡ false)

-- The channels that were closed were made and each was closed once; the one that is there was made
-- and is open.
pub record Channels (c : Container) : Type 0 where
  pub once : Once c.closed
  pub made : All (λ n. n < c.channels) c.closed
  pub opened : Open c.exit_notifier c.closed c.channels

-- And it is there exactly while the container lives.
pub record Notified (c : Container) : Type 0 where
  pub channels : Channels c
  pub while_alive : present c.exit_notifier ≡ not (same c.state stopped || same c.state down)

not_elem : (n bound : ℕ) (ns : List ℕ) → bound ≤ n → All (λ m. m < bound) ns → elem n ns ≡ false
not_elem n bound [] le h = refl
not_elem n bound (m ∷ ns) le (hm, h) = ground (arith, not_elem n bound ns le h)

-- `Channels`, and whether there is a notifier.
abbrev Has : Bool → Container → Type 0
Has b c = Channels c × (present c.exit_notifier ≡ b)

with_state-Channels : (s : StateString) (c : Container) → Channels c → Channels (with_state s c)
with_state-Channels s c h = record { once = h.once; made = h.made; opened = h.opened }

close_notifier-Has :
    (o : Option ℕ) (c : Container)
    → c.exit_notifier ≡ o
    → Channels c
    → Has false (close_notifier o c)
close_notifier-Has none c e h = (h, rw e refl)
close_notifier-Has (some n) c e h =
    let o : Open (some n) c.closed c.channels =
      subst (λ o. Open o c.closed c.channels) e h.opened in
    (record { once = (o.1, h.once); made = (o.0, h.made); opened = tt }, refl)

open_notifier-Has :
    (o : Option ℕ) (c : Container) → c.exit_notifier ≡ o → Channels c → Has true (open_notifier o c)
open_notifier-Has none c e h = (
  record {
    once = h.once;
    made = All-map _ (λ n. n < c.channels + 1) (λ n l. omega (arith, l)) c.closed h.made;
    opened = (omega arith, not_elem c.channels c.channels c.closed (omega arith) h.made);
  },
  refl,
)
open_notifier-Has (some n) c e h = (h, rw e refl)

abbrev alive : StateString → Bool
alive s = not (same s stopped || same s down)

-- updateExitNotifier, whatever the state was.
update_exit_notifier-Has :
    (s : StateString) (c : Container)
    → Channels c
    → Has (alive s) (update_exit_notifier s (with_state s c))
unfolding update_exit_notifier
update_exit_notifier-Has stopped c h =
    close_notifier-Has c.exit_notifier _ refl (with_state-Channels stopped c h)
update_exit_notifier-Has down c h =
    close_notifier-Has c.exit_notifier _ refl (with_state-Channels down c h)
update_exit_notifier-Has ready c h =
    open_notifier-Has c.exit_notifier _ refl (with_state-Channels ready c h)
update_exit_notifier-Has running c h =
    open_notifier-Has c.exit_notifier _ refl (with_state-Channels running c h)
update_exit_notifier-Has creating c h =
    open_notifier-Has c.exit_notifier _ refl (with_state-Channels creating c h)
update_exit_notifier-Has paused c h =
    open_notifier-Has c.exit_notifier _ refl (with_state-Channels paused c h)

update_exit_notifier-state :
    (s : StateString) (c : Container) → (update_exit_notifier s (with_state s c)).state ≡ s
unfolding update_exit_notifier
update_exit_notifier-state s c = ground arith

pub update_exit_notifier-Notified :
    (s : StateString) (c : Container)
    → Channels c
    → Notified (update_exit_notifier s (with_state s c))
update_exit_notifier-Notified s c h =
    let r = update_exit_notifier-Has s c h in
    record { channels = r.0; while_alive = rw (update_exit_notifier-state s c) r.1 }

abbrev notified : {W : Type 0} → Outside W → Kept W
notified outside = record {
  outside = outside;
  Holds = Notified;
  moved = λ s c _ h. update_exit_notifier-Notified s c h.channels;
  recorded = λ me c h. record {
    channels = record {
      once = h.channels.once;
      made = h.channels.made;
      opened = h.channels.opened;
    };
    while_alive = h.while_alive;
  };
}

module _ {W : Type 0} (outside : Outside W) where
  -- For a container with an id whose state is not `creating` and whose notifier is right at the start:
  -- whatever operations are called, in any order and with whatever errors of the outside: the
  -- channel is there exactly while the container is neither stopped nor down, no channel is closed
  -- twice, and the one that is there is open.
  pub perform_all-Notified :
      (calls : List Call) (c : Container) (w : W)
      → Notified c
      → c.config.id ≢ []
      → same c.state creating ≡ false
      → Notified (perform_all outside calls (c, w)).0
  perform_all-Notified calls c w n named created =
      let h : Sound (notified outside) c = record { holds = n; named = named; created = created } in
      (perform_all-Sound (notified outside) calls c w h).holds

-- ===== src/Container/Fit/Operations.antt =====
-- pkg/micantainer/container.go: the operations on a container, for its fitness.
use micrun.Prelude.{not, ℕ, if◌then◌else◌, ◌≡◌, refl, ◌∙◌, sym, Bool, true, false, Bytes, subst}
use micrun.Resources.{LinuxResources}
use micrun.Cpuset.{CpuSet}
use micrun.Mica.Executor.{Executor}
use micrun.Container.State.{StateString, ready, running, creating, same}
use micrun.Container.Core.{
  answered, Error, ask, failed, set_container_state, Container, Outside, Result, ok, error, Step,
  and_then,
}
use micrun.Container.Presence.{check_state, ensure_client_presence}
use micrun.Container.Making.{
  create, remove_unless_infra, winresize, resize_from, set_vcpu_affinity, pinned_config,
}
use micrun.Container.Update.{
  update, update_present, apply_changes, merge, validate_update, extract_changes,
}
use micrun.Pedestal.Essential.{EssentialResource}
use micrun.Container.Lifecycle.{from_executor, start, stop, kill, pause, resume}
use micrun.Container.Lifecycle.Rules.{
  set-changed, changed, Kept, Sound, Ends, Looked, check_state-Looked,
}
use micrun.Container.Lifecycle.Attendance.{Present, ensure_client_presence-Ends}
use micrun.Container.Lifecycle.Runs.{starting, stopping, killing, pausing, resuming, perform-Sound}
use micrun.Container.Lifecycle.Triples.{Ends-Sound}
use micrun.Container.Fit.{Fit, changed-Fit, config-Fit, kept, KeepsFit}

Looked-Sound :
    {W : Type 0} (k : Kept W) (r : Container × W × StateString) → Looked k r → Sound k r.0
unfolding Looked
Looked-Sound k (c, w, s) h = h.0

Looked-state :
    {W : Type 0} (k : Kept W) (r : Container × W × StateString) → Looked k r → r.0.state ≡ r.2
unfolding Looked
Looked-state k (c, w, s) h = h.1

changed_lem :
    {W : Type 0} (k : Kept W) (s : StateString) (id : Bytes) (c : Container)
    → Fit id c
    → same s creating ≡ false
    → Fit id (changed k s c)
unfolding changed
changed_lem k s id c h n = changed-Fit s id c h n

module _ {W : Type 0} (outside : Outside W) (id : Bytes) where
  to_Sound : (c : Container) → Fit id c → Sound (kept id outside) c
  to_Sound c h = record {
    holds = (h.notified, h.its_id);
    named = λ e. h.named (sym h.its_id ∙ e);
    created = h.created;
  }

  of_Sound : (c : Container) → Sound (kept id outside) c → Fit id c
  of_Sound c h = record {
    notified = h.holds.0;
    its_id = h.holds.1;
    named = λ e. h.named (h.holds.1 ∙ e);
    created = h.created;
  }

  of_Ends :
      {A : Type 0} (Q : A → Container → Type 0) (r : Container × W × Result A)
      → ((a : A) (c : Container) → Q a c → Sound (kept id outside) c)
      → Ends (kept id outside) Q r
      → Fit id r.0
  of_Ends Q r weaker h = of_Sound r.0 (Ends-Sound (kept id outside) Q r weaker h)

validate-Fit :
    (id : Bytes) (c : Container)
    → Fit id c
    → Fit id (record c { config = validate_update c.config })
unfolding validate_update
validate-Fit id c h = config-Fit _ c.me id c refl h

merge-Fit :
    (r : LinuxResources) (id : Bytes) (c : Container)
    → Fit id c
    → Fit id (record c { config = merge r c.config })
unfolding merge
merge-Fit r id c h = config-Fit _ c.me id c refl h

module _ {W : Type 0} where
  pub start-Fit : KeepsFit {W = W} (λ outside. start outside)
  start-Fit outside id c w h =
      of_Sound outside id _ (perform-Sound (kept id outside) starting c w (to_Sound outside id c h))

  pub stop-Fit : (force : Bool) → KeepsFit {W = W} (λ outside. stop outside force)
  stop-Fit force outside id c w h =
      of_Sound outside id _
        (perform-Sound (kept id outside) (stopping force) c w (to_Sound outside id c h))

  pub kill-Fit : (sandbox : StateString) → KeepsFit {W = W} (λ outside. kill outside sandbox)
  kill-Fit sandbox outside id c w h =
      of_Sound outside id _
        (perform-Sound (kept id outside) (killing sandbox) c w (to_Sound outside id c h))

  pub pause-Fit : KeepsFit {W = W} (λ outside. pause outside)
  pause-Fit outside id c w h =
      of_Sound outside id _ (perform-Sound (kept id outside) pausing c w (to_Sound outside id c h))

  pub resume-Fit : (sandbox : StateString) → KeepsFit {W = W} (λ outside. resume outside sandbox)
  resume-Fit sandbox outside id c w h =
      of_Sound outside id _
        (perform-Sound (kept id outside) (resuming sandbox) c w (to_Sound outside id c h))

  pub check_state-Fit :
      (outside : Outside W) (id : Bytes) (c : Container) (w : W)
      → Fit id c
      → Fit id (check_state outside c w).0
  check_state-Fit outside id c w h = of_Sound outside id _ (
      Looked-Sound (kept id outside) _
        (check_state-Looked (kept id outside) c w (to_Sound outside id c h)))

  pub check_state-state :
      (outside : Outside W) (id : Bytes) (c : Container) (w : W)
      → Fit id c
      → (check_state outside c w).0.state ≡ (check_state outside c w).2
  check_state-state outside id c w h =
      Looked-state (kept id outside) (check_state outside c w)
        (check_state-Looked (kept id outside) c w (to_Sound outside id c h))

  pub ensure_client_presence-Fit : KeepsFit {W = W} (λ outside. ensure_client_presence outside)
  ensure_client_presence-Fit outside id c w h =
      of_Ends outside id (Present (kept id outside)) _ (λ _ _ p. p.0.0)
        (ensure_client_presence-Ends (kept id outside) c w (to_Sound outside id c h))

  pub set-Fit :
      (s : StateString)
      → same s creating ≡ false
      → KeepsFit {W = W} (λ outside. set_container_state outside s)
  set-Fit s n outside id c w h =
      subst (Fit id) (sym (set-changed (kept id outside) s c w))
        (changed_lem (kept id outside) s id c h n)

  pub and_then-Fit :
      {A B : Type 0} (id : Bytes) (r : Container × W × Result A) (next : A → Step W B)
      → Fit id r.0
      → ((a : A) (c : Container) (w : W) → Fit id c → Fit id (next a c w).0)
      → Fit id (and_then r next).0
  unfolding and_then
  and_then-Fit id (c, w, ok a) next h step = step a c w h
  and_then-Fit id (c, w, error e) next h step = h

  if-Fit :
      {A : Type 0} (id : Bytes) (b : Bool) (r r' : Container × W × Result A)
      → Fit id r.0
      → Fit id r'.0
      → Fit id (if b then r else r').0
  if-Fit id true r r' h h' = h
  if-Fit id false r r' h h' = h'

  pub create-Fit : KeepsFit {W = W} (λ outside. create outside)
  unfolding create
  create-Fit outside id c w h =
      if-Fit id c.config.is_infra _ _ (set-Fit ready refl outside id c w h) (
        and_then-Fit id _ _ (ensure_client_presence-Fit outside id c w h)
          (λ _ c' w' h'. set-Fit ready refl outside id c' w' h'))

  answered-Fit :
      (e : Error) (id : Bytes) (c : Container) (r : W × Bool) → Fit id c → Fit id (answered e c r).0
  answered-Fit e id c (w, true) h = h
  answered-Fit e id c (w, false) h = h

  pub ask-Fit :
      (e : Error) (request : W → W × Bool) (id : Bytes) (c : Container) (w : W)
      → Fit id c
      → Fit id (ask e request c w).0
  unfolding ask
  ask-Fit e request id c w h = answered-Fit e id c (request w) h

  pub remove-Fit : KeepsFit {W = W} (λ outside. remove_unless_infra outside)
  remove-Fit outside id c w h = if-Fit id c.config.is_infra _ _ h (ask-Fit failed _ id c w h)

  resize_from-Fit :
      (outside : Outside W) (id : Bytes) (r : Container × W × StateString)
      → Fit id r.0
      → Fit id (resize_from outside r).0
  resize_from-Fit outside id (c, w, s) h = if-Fit id _ _ _ h h

  pub winresize-Fit : KeepsFit {W = W} (λ outside. winresize outside)
  unfolding winresize
  winresize-Fit outside id c w h =
      resize_from-Fit outside id (check_state outside c w) (check_state-Fit outside id c w h)

  from_executor-Fit :
      (outside : Outside W) (id : Bytes) (c : Container) (r : W × Executor × Bool)
      → Fit id c
      → Fit id (from_executor outside c r).0
  from_executor-Fit outside id c (w, me, true) h = config-Fit c.config me id c refl h
  from_executor-Fit outside id c (w, me, false) h = config-Fit c.config me id c refl h

  pub set_vcpu_affinity-Fit :
      (set : CpuSet) → KeepsFit {W = W} (λ outside. set_vcpu_affinity outside set)
  unfolding set_vcpu_affinity
  set_vcpu_affinity-Fit set outside id c w h =
      and_then-Fit id _ _ (from_executor-Fit outside id c _ h)
        (λ _ c' w' h'. config-Fit (pinned_config outside set c'.config) c'.me id c' refl h')

  apply-Fit :
      (outside : Outside W) (physical : ℕ) (res : EssentialResource) (r : LinuxResources)
      (id : Bytes) (c : Container) (w : W)
      → Fit id c
      → Fit id (apply_changes outside physical res r c w).0
  unfolding apply_changes
  apply-Fit outside physical res r id c w h =
      and_then-Fit id _ _ (from_executor-Fit outside id c _ h) (λ _ c' w' h'. merge-Fit r id c' h')

  update_present-Fit :
      (outside : Outside W) (physical : ℕ) (r : LinuxResources) (id : Bytes)
      (p : Container × W × StateString)
      → Fit id p.0
      → Fit id (update_present outside physical r p).0
  update_present-Fit outside physical r id (c, w, s) h = if-Fit id _ _ _ h (
      if-Fit id (extract_changes r).1 _ _
        (apply-Fit outside physical _ r id _ w (validate-Fit id c h)) (validate-Fit id c h))

  pub update-Fit :
      (physical : ℕ) (sandbox : StateString) (r : LinuxResources)
      → KeepsFit {W = W} (λ outside. update outside physical sandbox r)
  unfolding update
  update-Fit physical sandbox r outside id c w h = if-Fit id c.config.is_infra _ _ h (
      if-Fit id (not (same sandbox running)) _ _ h (
        update_present-Fit outside physical r id (check_state outside c w)
          (check_state-Fit outside id c w h)))

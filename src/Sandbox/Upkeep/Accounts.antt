-- ===== src/Sandbox/Upkeep/Accounts.antt =====
-- pkg/micantainer: updateResources and its sums, for the validity of a sandbox.
use micrun.Container.Core.{ok, Container}
use micrun.Container.State.{StateString}
use micrun.Resources.{ContainerConfig}
use micrun.Container.Fit.{Fit, KeepsFit}
use micrun.Container.Fit.Operations.{check_state-Fit}
use micrun.Keyed.{lookup}
use micrun.Container.Presence.{check_state}
use micrun.Sandbox.Accounting.{
  add_memory, add_vcpus, active_if_there, add_up, calculate_sandbox_memory, calculate_sandbox_vcpus,
  is_counted, look, looking, update_resources, with_ok,
}
use micrun.Prelude.{ℕ, ◌≡◌, refl, List, [], ◌∷◌, false, Option, none, some, Bytes, if◌then◌else◌}
use micrun.Sandbox.Core.{Sandbox, World}
use micrun.Sandbox.Rules.{Stable, Keeps, go_on-Keeps, if-Keeps, call-Keeps}

module _ {W : Type 0} (world : World W) {I : Sandbox → Type 0} (st : Stable I) where
  with_ok-Fit :
      (id : Bytes) (r : Container × W × StateString) → Fit id r.0 → Fit id (with_ok world r).0
  with_ok-Fit id (c, w, s) h = h

  pub looking-Fit : KeepsFit (looking world)
  looking-Fit outside id c w h =
      with_ok-Fit id (check_state outside c w) (check_state-Fit outside id c w h)

  pub look-Keeps :
      (id : Bytes) (c : Container) (s : Sandbox) (w : W)
      → lookup id s.containers ≡ some c
      → I s
      → I (look world c (s, w)).0.0
  unfolding look
  look-Keeps id c s w there v = call-Keeps world st (looking world) looking-Fit id c s w there v

  active_if_there-Keeps :
      (id : Bytes) (s : Sandbox) (w : W) (o : Option Container)
      → lookup id s.containers ≡ o
      → I s
      → I (active_if_there world o (s, w)).0.0
  active_if_there-Keeps id s w none e v = v
  active_if_there-Keeps id s w (some c) e v =
      go_on-Keeps I (look world c (s, w)) _ (look-Keeps id c s w e v) (λ _ s' w' v'. v')

  is_counted-Keeps : (cc : ContainerConfig) → Keeps I (is_counted world cc)
  unfolding is_counted
  is_counted-Keeps cc s w v =
      if-Keeps I cc.is_infra ((s, w), ok false) _ (λ _. v)
        (λ _. active_if_there-Keeps cc.id s w (lookup cc.id s.containers) refl v)

  pub add_up-Keeps :
      (add : ContainerConfig → ℕ → ℕ) (ccs : List (Bytes × ContainerConfig)) (total : ℕ)
      → Keeps I (add_up world add ccs total)
  unfolding add_up
  add_up-Keeps add [] total s w v = v
  add_up-Keeps add ((id, cc) ∷ ccs) total s w v =
      go_on-Keeps I (is_counted world cc (s, w)) _ (is_counted-Keeps cc s w v)
        (λ counted. add_up-Keeps add ccs (if counted then add cc total else total))

  pub calculate_sandbox_vcpus-Keeps : Keeps I (calculate_sandbox_vcpus world)
  unfolding calculate_sandbox_vcpus
  calculate_sandbox_vcpus-Keeps s w v =
      add_up-Keeps (add_vcpus world) s.config.container_configs 0 s w v

  calculate_sandbox_memory-Keeps : Keeps I (calculate_sandbox_memory world)
  unfolding calculate_sandbox_memory
  calculate_sandbox_memory-Keeps s w v =
      add_up-Keeps (add_memory s.config.huge_page_support) s.config.container_configs 0 s w v

  pub update_resources-Keeps : Keeps I (update_resources world)
  unfolding update_resources
  update_resources-Keeps s w v =
      if-Keeps I s.config.infra_only ((s, w), ok tt) _ (λ _. v)
        (λ _.
          if-Keeps I s.config.static_resource_mgmt ((s, w), ok tt) _ (λ _. v)
            (λ _.
              go_on-Keeps I (calculate_sandbox_vcpus world (s, w)) _
                (calculate_sandbox_vcpus-Keeps s w v)
                (λ n s' w' v'.
                  go_on-Keeps I (calculate_sandbox_memory world (s', w')) _
                    (calculate_sandbox_memory-Keeps s' w' v')
                    (λ m s'' w'' v''. st.booked s'' _ _ v''))))

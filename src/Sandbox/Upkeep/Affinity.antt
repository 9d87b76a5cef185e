-- ===== src/Sandbox/Upkeep/Affinity.antt =====
-- pkg/micantainer/sandbox.go: checkVCPUsPinning, for the validity of a sandbox.
use micrun.Pedestal.Planner.{is_empty_text}
use micrun.Cpuset.{CpuSet, to_slice}
use micrun.Sandbox.Accounting.{calculate_sandbox_vcpus}
use micrun.Resources.{cpu_mask}
use micrun.Keyed.{keys, lookup}
use micrun.Container.Fit.{KeepsFit}
use micrun.Container.Fit.Operations.{set_vcpu_affinity-Fit}
use micrun.Sandbox.Rules.{Stable, Keeps, call-Keeps, go_on-Keeps, if-Keeps}
use micrun.Cpuset.Parse.{Outcome, parse}
use micrun.Container.Core.{Container, Result, error, ok}
use micrun.Sandbox.Core.{At, go_on, Op, Sandbox, World, call}
use micrun.Prelude.{
  some, ◌≡◌, List, Option, Bool, Bytes, [], false, if◌then◌else◌, none, refl, true, ℕ, ◌∷◌,
}
use micrun.Sandbox.Pinning.{
  pin_vcpu, check_vcpus_pinning, finish_pinning, for_present, get_sandbox_cpuset_str, matches,
  pin_container, pin_each, pin_merged, pin_own, pin_parsed, pin_shared, pin_text, pinned,
  pinned_own, pinning, record_set, unmark,
}
use micrun.Sandbox.Upkeep.Accounts.{calculate_sandbox_vcpus-Keeps}

module _ {W : Type 0} (world : World W) {I : Sandbox → Type 0} (st : Stable I) where
  record_set-Keeps :
      (cid : Bytes) (set : CpuSet) (s : Sandbox) → I s → I (record_set world cid set s)
  record_set-Keeps cid set s v = st.booked s _ _ v

  pinned-Keeps :
      (cid : Bytes) (set : CpuSet) (fine : Bool) (r : At W × Result Unit)
      → I r.0.0
      → I (pinned world cid set fine r).0.0
  pinned-Keeps cid set fine ((s, w), ok _) v = record_set-Keeps cid set s v
  pinned-Keeps cid set fine ((s, w), error e) v = v

  pinning-Fit : (set : CpuSet) → KeepsFit (pinning world set)
  pinning-Fit set outside id c w h = set_vcpu_affinity-Fit set outside id c w h

  pin_container-Keeps :
      (cid : Bytes) (set : CpuSet) (fine : Bool) (id : Bytes) (c : Container) (s : Sandbox) (w : W)
      → lookup id s.containers ≡ some c
      → I s
      → I (pin_container world cid set fine c (s, w)).0.0
  unfolding pin_container
  pin_container-Keeps cid set fine id c s w there v =
      pinned-Keeps cid set fine (call world (pinning world set) c (s, w))
        (call-Keeps world st (pinning world set) (pinning-Fit set) id c s w there v)

  for_present-Keeps :
      {A : Type 0} (a : A) (id : Bytes) (next : Container → Op W A) (s : Sandbox) (w : W)
      (o : Option Container)
      → lookup id s.containers ≡ o
      → ((c : Container) → lookup id s.containers ≡ some c → I (next c (s, w)).0.0)
      → I s
      → I (for_present world a o next (s, w)).0.0
  for_present-Keeps a id next s w none e step v = v
  for_present-Keeps a id next s w (some c) e step v = step c e

  pin_shared-Keeps :
      (set : CpuSet) (cids : List Bytes) (fine : Bool) → Keeps I (pin_shared world set cids fine)
  unfolding pin_shared go_on
  pin_shared-Keeps set [] fine s w v = v
  pin_shared-Keeps set (cid ∷ cids) fine s w v =
      go_on-Keeps I
        (for_present world fine (lookup cid s.containers) (pin_container world cid set fine) (s, w))
        _
        (for_present-Keeps fine cid (pin_container world cid set fine) s w (lookup cid s.containers)
          refl (λ c there. pin_container-Keeps cid set fine cid c s w there v) v)
        (λ fine'. pin_shared-Keeps set cids fine')

  pinned_own-Keeps :
      (cid : Bytes) (set : CpuSet) (fine : Bool) (all : CpuSet) (r : At W × Result Unit)
      → I r.0.0
      → I (pinned_own world cid set fine all r).0.0
  pinned_own-Keeps cid set fine all ((s, w), ok _) v = record_set-Keeps cid set s v
  pinned_own-Keeps cid set fine all ((s, w), error e) v = v

  pin_parsed-Keeps :
      (cid : Bytes) (fine : Bool) (all : CpuSet) (c : Container) (o : Outcome) (id : Bytes)
      (s : Sandbox) (w : W)
      → lookup id s.containers ≡ some c
      → I s
      → I (pin_parsed world cid fine all c o (s, w)).0.0
  pin_parsed-Keeps cid fine all c (set, none) id s w there v =
      pinned_own-Keeps cid set fine all (call world (pinning world set) c (s, w))
        (call-Keeps world st (pinning world set) (pinning-Fit set) id c s w there v)
  pin_parsed-Keeps cid fine all c (set, some e) id s w there v = v

  pin_own-Keeps :
      (cid : Bytes) (fine : Bool) (all : CpuSet) (id : Bytes) (c : Container) (s : Sandbox) (w : W)
      → lookup id s.containers ≡ some c
      → I s
      → I (pin_own world cid fine all c (s, w)).0.0
  unfolding pin_own
  pin_own-Keeps cid fine all id c s w there v =
      if-Keeps I (is_empty_text (cpu_mask c.config)) _
        (pin_parsed world cid fine all c (parse (cpu_mask c.config)) (s, w)) (λ _. v)
        (λ _. pin_parsed-Keeps cid fine all c (parse (cpu_mask c.config)) id s w there v)

  pin_each-Keeps :
      (cids : List Bytes) (fine : Bool) (all : CpuSet) → Keeps I (pin_each world cids (fine, all))
  unfolding pin_each go_on
  pin_each-Keeps [] fine all s w v = v
  pin_each-Keeps (cid ∷ cids) fine all s w v =
      go_on-Keeps I
        (for_present world (fine, all) (lookup cid s.containers) (pin_own world cid fine all)
          (s, w))
        _
        (for_present-Keeps (fine, all) cid (pin_own world cid fine all) s w
          (lookup cid s.containers) refl (λ c there. pin_own-Keeps cid fine all cid c s w there v)
          v)
        (λ r. pin_each-Keeps cids r.0 r.1)

  finish_pinning-Keeps : (pool : List ℕ) (fine : Bool) → Keeps I (finish_pinning world pool fine)
  finish_pinning-Keeps pool true s w v =
      go_on-Keeps I (calculate_sandbox_vcpus world (s, w)) _
        (calculate_sandbox_vcpus-Keeps world st s w v) (λ n s' w' v'. st.booked s' _ _ v')
  finish_pinning-Keeps pool false s w v = v

  pin_vcpu-Keeps : (set : CpuSet) → Keeps I (pin_vcpu world set)
  unfolding pin_vcpu
  pin_vcpu-Keeps set s w v =
      if-Keeps I s.config.shared_cpu_pool _ _
        (λ _.
          go_on-Keeps I (pin_shared world set (keys s.containers) true (s, w))
            (finish_pinning world (to_slice set))
            (pin_shared-Keeps set (keys s.containers) true s w v)
            (finish_pinning-Keeps (to_slice set)))
        (λ _.
          go_on-Keeps I (pin_each world (keys s.containers) (true, []) (s, w))
            (λ r. finish_pinning world (to_slice r.1) r.0)
            (pin_each-Keeps (keys s.containers) true [] s w v)
            (λ r. finish_pinning-Keeps (to_slice r.1) r.0))

  unmark-Keeps : (set : CpuSet) (s : Sandbox) → I s → I (unmark world set s)
  unmark-Keeps set s v = unmarked (matches world (to_slice set) s)
    where
      unmarked : (b : Bool) → I (if b then s else record s { vcpu_already_pinned = false })
      unmarked true = v
      unmarked false = st.booked s _ _ v

  pin_merged-Keeps : (o : Outcome) → Keeps I (pin_merged world o)
  unfolding go_on
  pin_merged-Keeps (set, none) s w v =
      go_on-Keeps I (pin_vcpu world set (unmark world set s, w)) _
        (pin_vcpu-Keeps set (unmark world set s) w (unmark-Keeps set s v))
        (λ _ s' w' v'. st.booked s' _ _ v')
  pin_merged-Keeps (set, some e) s w v = v

  pin_text-Keeps : (o : Option (Bytes × Bytes)) → Keeps I (pin_text world o)
  pin_text-Keeps none s w v = v
  pin_text-Keeps (some (cpus, mems)) s w v = pin_merged-Keeps (parse cpus) s w v

  pub check_vcpus_pinning-Keeps : Keeps I (check_vcpus_pinning world)
  unfolding check_vcpus_pinning
  check_vcpus_pinning-Keeps s w v =
      if-Keeps I s.config.enable_vcpus_pinning _ ((s, w), ok tt)
        (λ _. pin_text-Keeps (get_sandbox_cpuset_str s.config.container_configs) s w v) (λ _. v)

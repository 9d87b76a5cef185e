-- ===== src/Sandbox/Pinning.antt =====
-- pkg/micantainer/sandbox.go: getSandboxCpusetStr, pinVCPU and checkVCPUsPinning.
use micrun.Prelude.{
  ℕ, List, [], ◌∷◌, Bool, true, false, ◌&&◌, Option, none, some, Bytes, ◌==◌, if◌then◌else◌, length,
}
use micrun.Text.{trim_space}
use micrun.Keyed.{lookup, insert, keys}
use micrun.Resources.{ContainerConfig, LinuxCpu, LinuxResources, cpu_mask}
use micrun.Cpuset.{CpuSet, union, to_slice}
use micrun.Cpuset.Parse.{parse, Outcome}
use micrun.Cpuset.Print.{to_string}
use micrun.OciResources.{out_of_range}
use micrun.Pedestal.Planner.{is_empty_text}
use micrun.Container.Core.{Container, Outside, Step, failed, Result, ok, error}
use micrun.Container.Making.{set_vcpu_affinity}
use micrun.Sandbox.Core.{Sandbox, World, At, Op, pure, fail, ◌>>=◌, ◌>>◌, go_on, get, modify, call}
use micrun.Sandbox.Accounting.{calculate_sandbox_vcpus, with_res}
pub mod Merging

-- The two sets that are merged; `none` is a text that cannot be parsed.
abbrev pub Merged : Type 0
Merged = Option (CpuSet × CpuSet)

abbrev pub merge_mems : CpuSet × CpuSet → Outcome → Merged
merge_mems (cpus, mems) (set, none) = some (cpus, union mems set)
merge_mems _ (set, some e) = none

abbrev pub merge_cpus : Bytes → CpuSet × CpuSet → Outcome → Merged
merge_cpus mem_str (cpus, mems) (set, none) =
    if is_empty_text mem_str
    then some (union cpus set, mems)
    else merge_mems (union cpus set, mems) (parse mem_str)
merge_cpus mem_str _ (set, some e) = none

abbrev pub merge_cpu : LinuxCpu → CpuSet × CpuSet → Merged
merge_cpu cpu sets =
    if is_empty_text (trim_space cpu.cpus)
    then some sets
    else merge_cpus (trim_space cpu.mems) sets (parse (trim_space cpu.cpus))

abbrev pub merge_resources : Option LinuxResources → CpuSet × CpuSet → Merged
merge_resources none sets = some sets
merge_resources (some r) sets = elim r.cpu [ none ↦ some sets | some cpu ↦ merge_cpu cpu sets ]

-- One round of the loop of getSandboxCpusetStr.
unfoldable pub merge_config : ContainerConfig → CpuSet × CpuSet → Merged
merge_config cfg sets = if cfg.is_infra then some sets else merge_resources cfg.resources sets

abbrev pub if_merged : {A B : Type 0} → Option A → (A → Option B) → Option B
if_merged none next = none
if_merged (some a) next = next a

unfoldable pub merge_configs : List (Bytes × ContainerConfig) → CpuSet × CpuSet → Merged
unfolding merge_config
merge_configs [] sets = some sets
merge_configs ((id, cfg) ∷ cfgs) sets = if_merged (merge_config cfg sets) (merge_configs cfgs)

abbrev pub print_sets : CpuSet × CpuSet → Option (Bytes × Bytes)
print_sets (cpus, mems) = some (to_string cpus, to_string mems)

-- getSandboxCpusetStr
unfoldable pub get_sandbox_cpuset_str : List (Bytes × ContainerConfig) → Option (Bytes × Bytes)
unfolding merge_configs
get_sandbox_cpuset_str cfgs = if_merged (merge_configs cfgs ([], [])) print_sets

module _ {W : Type 0} (world : World W) where
  abbrev pub pinning : CpuSet → Outside W → Step W Unit
  pinning set outside = set_vcpu_affinity outside set

  -- What is recorded of a container that was pinned.
  abbrev pub record_set : Bytes → CpuSet → Sandbox → Sandbox
  record_set cid set =
      with_res (λ res. record res { container_cpu_sets = insert cid set res.container_cpu_sets })

  -- The result of a pinning, added to the errors so far.
  abbrev pub pinned : Bytes → CpuSet → Bool → At W × Result Unit → At W × Result Bool
  pinned cid set fine ((s, w), ok _) = ((record_set cid set s, w), ok fine)
  pinned cid set fine (at, error e) = (at, ok false)

  unfoldable pub pin_container : Bytes → CpuSet → Bool → Container → Op W Bool
  unfolding call set_vcpu_affinity
  pin_container cid set fine c at = pinned cid set fine (call world (pinning set) c at)

  -- A container that is no longer there is passed over.
  abbrev pub for_present : {A : Type 0} → A → Option Container → (Container → Op W A) → Op W A
  for_present a none next = pure a
  for_present a (some c) next = next c

  -- The loop over the containers with a shared pool.
  unfoldable pub pin_shared : CpuSet → List Bytes → Bool → Op W Bool
  unfolding pin_container go_on
  pin_shared set [] fine = pure fine
  pin_shared set (cid ∷ cids) fine = do
    s ← get
    fine' ← for_present fine (lookup cid s.containers) (pin_container cid set fine)
    pin_shared set cids fine'

  abbrev pub pinned_own :
      Bytes → CpuSet → Bool → CpuSet → At W × Result Unit → At W × Result (Bool × CpuSet)
  pinned_own cid set fine all ((s, w), ok _) = ((record_set cid set s, w), ok (fine, union all set))
  pinned_own cid set fine all (at, error e) = (at, ok (false, all))

  abbrev pub pin_parsed : Bytes → Bool → CpuSet → Container → Outcome → Op W (Bool × CpuSet)
  pin_parsed cid fine all c (set, none) at =
      pinned_own cid set fine all (call world (pinning set) c at)
  pin_parsed cid fine all c (set, some e) at = (at, ok (false, all))

  -- One round of the loop with independent pinning.
  unfoldable pub pin_own : Bytes → Bool → CpuSet → Container → Op W (Bool × CpuSet)
  unfolding call set_vcpu_affinity
  pin_own cid fine all c at =
      if is_empty_text (cpu_mask c.config)
      then (at, ok (fine, all))
      else pin_parsed cid fine all c (parse (cpu_mask c.config)) at

  unfoldable pub pin_each : List Bytes → Bool × CpuSet → Op W (Bool × CpuSet)
  unfolding pin_own go_on
  pin_each [] so_far = pure so_far
  pin_each (cid ∷ cids) (fine, all) = do
    s ← get
    so_far ← for_present (fine, all) (lookup cid s.containers) (pin_own cid fine all)
    pin_each cids so_far

  -- The end of pinVCPU: without an error the number of virtual CPUs and the pool are set.
  abbrev pub finish_pinning : List ℕ → Bool → Op W Unit
  finish_pinning pool true = do
    total ← calculate_sandbox_vcpus world
    modify (with_res (λ res. record res { vcpu_num = total; pcpu_pool = pool }))
  finish_pinning pool false = fail failed

  abbrev pub pin_independently : Op W Unit
  pin_independently (s, w) =
      go_on (pin_each (keys s.containers) (true, []) (s, w))
        (λ r. finish_pinning (to_slice r.1) r.0)

  -- pinVCPU
  unfoldable pub pin_vcpu : CpuSet → Op W Unit
  unfolding pin_shared pin_each calculate_sandbox_vcpus go_on
  pin_vcpu set (s, w) =
      if s.config.shared_cpu_pool
      then go_on (pin_shared set (keys s.containers) true (s, w)) (finish_pinning (to_slice set))
      else pin_independently (s, w)

  abbrev pub mark_pinned : Bool → Op W Unit
  mark_pinned b = modify (λ s. record s { vcpu_already_pinned = b })

  abbrev pub is_nil_list : List ℕ → Bool
  is_nil_list [] = true
  is_nil_list (c ∷ cs) = false

  -- Whether the host has the CPUs and, with a shared pool, there are as many as virtual CPUs.
  unfoldable pub matches : List ℕ → Sandbox → Bool
  unfolding out_of_range
  matches cpus s =
      is_nil_list (out_of_range world.physical cpus)
      && (if s.config.shared_cpu_pool then length cpus == s.res.vcpu_num else true)

  abbrev pub unmark : CpuSet → Sandbox → Sandbox
  unmark set s = if matches (to_slice set) s then s else record s { vcpu_already_pinned = false }

  abbrev pub pin_merged : Outcome → Op W Unit
  pin_merged (set, none) = do modify (unmark set); pin_vcpu set; mark_pinned true
  pin_merged (set, some e) = fail failed

  abbrev pub pin_text : Option (Bytes × Bytes) → Op W Unit
  pin_text none = fail failed
  pin_text (some (cpus, mems)) = pin_merged (parse cpus)

  -- checkVCPUsPinning
  unfoldable pub check_vcpus_pinning : Op W Unit
  unfolding pin_vcpu get_sandbox_cpuset_str matches go_on
  check_vcpus_pinning (s, w) =
      if s.config.enable_vcpus_pinning
      then pin_text (get_sandbox_cpuset_str s.config.container_configs) (s, w)
      else ((s, w), ok tt)

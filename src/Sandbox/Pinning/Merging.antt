-- ===== src/Sandbox/Pinning/Merging.antt =====
-- pkg/micantainer/sandbox.go: getSandboxCpusetStr, and the parse of its text in checkVCPUsPinning.
use micrun.Cpuset.RoundTrip.{parse-to_string}
use micrun.Cpuset.Print.{to_string}
use micrun.Sandbox.Core.{set}
use micrun.Cpuset.Members.{Uniq, contains-operations, put_all-Uniq}
use micrun.Pedestal.Planner.{is_empty_text}
use micrun.Cpuset.Ranges.{Fits, Below}
use micrun.Text.{max_int, trim_space}
use micrun.Cpuset.Parse.{Outcome, parse}
use micrun.Resources.{
  LinuxResources, cpu_spec, mask_of, resources_cpu, ContainerConfig, LinuxCpu, cpu_mask,
}
use micrun.Cpuset.{CpuSet, contains, union}
use micrun.Sandbox.Pinning.{
  get_sandbox_cpuset_str, if_merged, merge_config, merge_configs, merge_resources, print_sets,
  merge_cpu, merge_cpus, merge_mems,
}
use micrun.Cpuset.Bounds.{parse-Fits, union-All}
use micrun.Prelude.{
  Bool-cases, Option, inl, inr, none-some, some_eq, ◌∙◌, Bool, Bytes, List, [], ap, arith, false,
  if◌then◌else◌, none, some, subst, sym, true, ℕ, ◌||◌, ◌∷◌, ◌≤◌, ◌≡◌, refl,
}

-- The CPUs that a config asks for.
unfoldable pub own_cpus : ContainerConfig → CpuSet
own_cpus cfg = if cfg.is_infra then [] else (parse (trim_space (cpu_mask cfg))).0

-- Whether one of the configs asks for a CPU.
abbrev pub asked_for : ℕ → List (Bytes × ContainerConfig) → Bool
asked_for x [] = false
asked_for x ((id, cfg) ∷ cfgs) = contains (own_cpus cfg) x || asked_for x cfgs

-- A set of ints, each once.
abbrev IsProper : CpuSet → Type 0
IsProper s = Uniq s × Fits s

abbrev Adds : CpuSet → CpuSet → CpuSet → Type 0
Adds before new after =
    IsProper after × ((x : ℕ) → contains after x ≡ (contains before x || contains new x))

union-Adds : (a b : CpuSet) → IsProper a → Fits b → Adds a b (union a b)
unfolding union
union-Adds a b (ua, fa) fb = (
  (put_all-Uniq b _ (put_all-Uniq a [] tt), union-All (λ n. n ≤ max_int) a b fa fb),
  λ x. (contains-operations a b x).0,
)

nothing-Adds : (a : CpuSet) → IsProper a → Adds a [] a
nothing-Adds a h = (h, λ x. ground arith)

merge_mems-keeps :
    (cpus mems : CpuSet) (o : Outcome) (r : CpuSet × CpuSet)
    → merge_mems (cpus, mems) o ≡ some r
    → r.0 ≡ cpus
merge_mems-keeps cpus mems (set, none) r e = ap (λ (z : CpuSet × CpuSet). z.0) (sym (some_eq e))
merge_mems-keeps cpus mems (set, some err) r e = absurd (none-some r e)

merge_text-keeps :
    (b : Bool) (cpus mems : CpuSet) (o : Outcome) (r : CpuSet × CpuSet)
    → (if b then some (cpus, mems) else merge_mems (cpus, mems) o) ≡ some r
    → r.0 ≡ cpus
merge_text-keeps true cpus mems o r e = ap (λ (z : CpuSet × CpuSet). z.0) (sym (some_eq e))
merge_text-keeps false cpus mems o r e = merge_mems-keeps cpus mems o r e

merge_cpus-Adds :
    (mem_str : Bytes) (cpus mems : CpuSet) (o : Outcome) (r : CpuSet × CpuSet)
    → IsProper cpus
    → Fits o.0
    → merge_cpus mem_str (cpus, mems) o ≡ some r
    → Adds cpus o.0 r.0
merge_cpus-Adds mem_str cpus mems (set, none) r h f e =
    subst (Adds cpus set)
      (sym (merge_text-keeps (is_empty_text mem_str) (union cpus set) mems (parse mem_str) r e))
      (union-Adds cpus set h f)
merge_cpus-Adds mem_str cpus mems (set, some err) r h f e = absurd (none-some r e)

merge_cpu-Adds :
    (cpu : LinuxCpu) (cpus mems : CpuSet) (r : CpuSet × CpuSet)
    → IsProper cpus
    → merge_cpu cpu (cpus, mems) ≡ some r
    → Adds cpus (parse (trim_space cpu.cpus)).0 r.0
unfolding parse
merge_cpu-Adds cpu cpus mems r h e = trimmed (trim_space cpu.cpus) e
  where
    trimmed :
        (s : Bytes)
        → (if is_empty_text s
            then some (cpus, mems)
            else merge_cpus (trim_space cpu.mems) (cpus, mems) (parse s))
          ≡ some r
        → Adds cpus (parse s).0 r.0
    trimmed [] e' =
        subst (Adds cpus []) (ap (λ (z : CpuSet × CpuSet). z.0) (some_eq e')) (nothing-Adds cpus h)
    trimmed (c ∷ s) e' =
        merge_cpus-Adds (trim_space cpu.mems) cpus mems (parse (c ∷ s)) r h (parse-Fits (c ∷ s)) e'

unchanged-Adds :
    (new cpus mems : CpuSet) (r : CpuSet × CpuSet)
    → new ≡ []
    → IsProper cpus
    → some (cpus, mems) ≡ some r
    → Adds cpus new r.0
unchanged-Adds new cpus mems r e h e' =
    subst (λ n. Adds cpus n r.0) (sym e)
      (subst (Adds cpus []) (ap (λ (z : CpuSet × CpuSet). z.0) (some_eq e')) (nothing-Adds cpus h))

merge_resources-Adds :
    (o : Option LinuxResources) (cpus mems : CpuSet) (r : CpuSet × CpuSet)
    → IsProper cpus
    → merge_resources o (cpus, mems) ≡ some r
    → Adds cpus (parse (trim_space (mask_of (resources_cpu o)))).0 r.0
unfolding parse trim_space
merge_resources-Adds none cpus mems r h e = unchanged-Adds _ cpus mems r refl h e
merge_resources-Adds (some res) cpus mems r h e = with_cpu-Adds res.cpu e
  where
    with_cpu-Adds :
        (c : Option LinuxCpu)
        → (elim c [ none ↦ some (cpus, mems) | some cpu ↦ merge_cpu cpu (cpus, mems) ]) ≡ some r
        → Adds cpus (parse (trim_space (mask_of c))).0 r.0
    with_cpu-Adds none e' = unchanged-Adds _ cpus mems r refl h e'
    with_cpu-Adds (some cpu) e' = merge_cpu-Adds cpu cpus mems r h e'

merge_config-Adds :
    (cfg : ContainerConfig) (cpus mems : CpuSet) (r : CpuSet × CpuSet)
    → IsProper cpus
    → merge_config cfg (cpus, mems) ≡ some r
    → Adds cpus (own_cpus cfg) r.0
unfolding merge_config own_cpus cpu_mask cpu_spec
merge_config-Adds cfg cpus mems r h e = elim (Bool-cases cfg.is_infra) [
  | inl infra ↦ rw infra (unchanged-Adds [] cpus mems r refl h (rw infra at e))
  | inr own ↦ rw own (merge_resources-Adds cfg.resources cpus mems r h (rw own at e))
]

if_merged-some :
    {A B : Type 0} (o : Option A) (next : A → Option B) {b : B}
    → if_merged o next ≡ some b
    → (a : A) × (o ≡ some a) × (next a ≡ some b)
if_merged-some none next e = absurd (none-some _ e)
if_merged-some (some a) next e = (a, refl, e)

merge_configs-Adds :
    (cfgs : List (Bytes × ContainerConfig)) (cpus mems : CpuSet) (r : CpuSet × CpuSet)
    → IsProper cpus
    → merge_configs cfgs (cpus, mems) ≡ some r
    → IsProper r.0 × ((x : ℕ) → contains r.0 x ≡ (contains cpus x || asked_for x cfgs))
unfolding merge_configs
merge_configs-Adds [] cpus mems r h e =
    subst
      (λ (z : CpuSet × CpuSet).
        IsProper z.0 × ((x : ℕ) → contains z.0 x ≡ (contains cpus x || false)))
      (some_eq e) (h, λ x. ground arith)
merge_configs-Adds ((id, cfg) ∷ cfgs) cpus mems r h e =
    let (mid, e', e'') = if_merged-some (merge_config cfg (cpus, mems)) (merge_configs cfgs) e in
    let (proper, first) = merge_config-Adds cfg cpus mems mid h e' in
    let (proper', rest) = merge_configs-Adds cfgs mid.0 mid.1 r proper e'' in
    (proper', λ x. ground (arith, first x, rest x))

-- A set of ints without the largest one.
Below-Fits : (s : CpuSet) → Fits s → contains s max_int ≡ false → Below s
Below-Fits [] fits h = tt
Below-Fits (x ∷ s) (fit, fits) h = (ground arith, Below-Fits s fits (ground arith))

-- If no container asks for the largest int as a CPU and getSandboxCpusetStr gives a text, Parse reads it without an error, and it names exactly the CPUs
-- that the cpuset of some container that is not an infra container names.
pub get_sandbox_cpuset_str_lem :
    (cfgs : List (Bytes × ContainerConfig)) (cpus mems : Bytes)
    → asked_for max_int cfgs ≡ false
    → get_sandbox_cpuset_str cfgs ≡ some (cpus, mems)
    → ((parse cpus).1 ≡ none) × ((x : ℕ) → contains (parse cpus).0 x ≡ asked_for x cfgs)
unfolding get_sandbox_cpuset_str
get_sandbox_cpuset_str_lem cfgs cpus mems small e =
    let (sets, e', e'') = if_merged-some (merge_configs cfgs ([], [])) print_sets e in
    let (proper, named) = merge_configs-Adds cfgs [] [] sets (tt, tt) e' in
    let printed : to_string sets.0 ≡ cpus = ap (λ (z : Bytes × Bytes). z.0) (some_eq e'') in
    let (fine, same_cpus) =
      parse-to_string sets.0 proper.0 (Below-Fits sets.0 proper.1 (named max_int ∙ small)) in
    (
      subst (λ t. (parse t).1 ≡ none) printed fine,
      λ x. subst (λ t. contains (parse t).0 x ≡ asked_for x cfgs) printed (same_cpus x ∙ named x),
    )

-- ===== src/Mica/Executor/Update/Applied.antt =====
-- pkg/micantainer/utils.go: what the record holds after updateContainerResource.
use micrun.Prelude.{
  All, ap, ap₂, ◌∙◌, length, ◌≢◌, [], ◌∷◌, ℕ, ◌<◌, ◌≤◌, ◌≡◌, refl, Bool, true, false, Option, none,
  some, Bytes, List, arith, u32, Bool-cases, inl, inr,
}
use micrun.Text.{trim_space}
use micrun.Pedestal.Essential.{EssentialResource}
use micrun.Mica.Command.{MicaCommand}
use micrun.Mica.Executor.{
  Executor, current_max_mem, read_resource, need_update_cpu_cap, need_update_mem_limit,
  need_update_cpu_set, need_update_cpu_share, need_update_vcpus, update_cpu_capacity,
  ensure_memory_limit, update_pcpu_constrains, update_cpu_weight, update_vcpu_num, then_do, settle,
  recorded_cpus, bytes_eq, update_memory, update_memory_threshold,
}
use micrun.Mica.Buffer.{copy_into, trim_right_nul, trim_right_nul-copy_into}
use micrun.Mica.Executor.Memory.{Covers, ensure_memory_limit_lem}
use micrun.Mica.Executor.Update.{
  if_needed, logged, update_capacity, update_limit, update_cpus, update_weight, update_vcpus,
  update_container_resource,
}

-- A value that was asked for, if one was.
abbrev pub Asked : Option ℕ → ℕ → Type 0
Asked none n = Unit
Asked (some m) n = n ≡ m

abbrev pub Fits32 : Option ℕ → Type 0
Fits32 none = Unit
Fits32 (some m) = m < 4294967296

no_limit : (mb : ℕ) (me : Executor) → need_update_mem_limit mb me ≡ false → current_max_mem me ≡ mb
unfolding need_update_mem_limit
no_limit mb me unneeded = ground arith

bytes_eq_eq : (a b : Bytes) → bytes_eq a b ≡ true → a ≡ b
bytes_eq_eq [] [] e = refl
bytes_eq_eq [] (_ ∷ _) e = cc
bytes_eq_eq (_ ∷ _) [] e = cc
bytes_eq_eq (a ∷ s) (b ∷ t) e = ap₂ (λ c r. c ∷ r) (ground arith) (bytes_eq_eq s t (ground arith))

-- An update of the CPUs is left out only if they are the recorded ones, spaces apart.
same_cpus :
    (start me : Executor) (new : Bytes)
    → me.cpu_str ≡ start.cpu_str
    → need_update_cpu_set (recorded_cpus start) new me ≡ false
    → trim_space (recorded_cpus me) ≡ trim_space new
unfolding need_update_cpu_set recorded_cpus
same_cpus start me new e unneeded =
    elim (Bool-cases (bytes_eq (trim_space (recorded_cpus start)) (trim_space new))) [
      | inl same ↦ ap (λ s. trim_space (trim_right_nul s)) e ∙ bytes_eq_eq _ _ same
      | inr other ↦ bytes_eq_eq _ _ (ground arith)
    ]

module _ {W : Type 0} (ctl : MicaCommand → Bytes → List Bytes → W → W × Bool) where
  -- What holds of the record if there was no error.
  abbrev After : (Executor → Type 0) → W × Executor × Bool → Type 0
  After P (w, me, true) = P me
  After P (w, me, false) = Unit

  then_do-After :
      (P Q : Executor → Type 0) (r : W × Executor × Bool)
      (next : Executor → W → W × Executor × Bool)
      → After P r
      → ((me : Executor) (w : W) → P me → After Q (next me w))
      → After Q (then_do ctl r next)
  then_do-After P Q (w, me, true) next h k = k me w h
  then_do-After P Q (w, me, false) next h k = tt

  if_needed-After :
      (P : Executor → Type 0) (b : Bool) (r : W × Executor × Bool) (me : Executor) (w : W)
      → After P r
      → (b ≡ false → P me)
      → After P (if_needed ctl b r me w)
  if_needed-After P true r me w h k = h
  if_needed-After P false r me w h k = k refl

  settle-After :
      (P : Executor → Type 0) (r : W × Bool) (me changed : Executor)
      → P changed
      → After P (settle ctl r me changed)
  settle-After P (w, true) me changed h = h
  settle-After P (w, false) me changed h = tt

  After-intro : (P : Executor → Type 0) (r : W × Executor × Bool) → (r.2 ≡ true → P r.1) → After P r
  After-intro P (w, me, true) h = h refl
  After-intro P (w, me, false) h = tt

  -- EnsureMemoryLimit is about the memory alone.
  ensure_memory_limit-kept :
      (mb : ℕ) (me : Executor) (w : W)
      → ((ensure_memory_limit ctl mb me w).1.cpu_str ≡ me.cpu_str)
        × ((ensure_memory_limit ctl mb me w).1.cpu_capacity ≡ me.cpu_capacity)
  unfolding ensure_memory_limit update_memory_threshold update_memory
  ensure_memory_limit-kept mb me w = (ground arith, ground arith)

  module _ (physical : ℕ) (updated : EssentialResource) (start : Executor) where
    -- What holds after one, two, three and four of the requests.
    abbrev Capacity : Executor → Type 0
    Capacity me =
        Covers me × (me.cpu_str ≡ start.cpu_str) × Asked updated.cpu_capacity (u32 me.cpu_capacity)

    abbrev Limit : Executor → Type 0
    Limit me = Capacity me × Asked updated.memory_max_mb (current_max_mem me)

    abbrev Cpus : Executor → Type 0
    Cpus me =
        Asked updated.cpu_capacity (u32 me.cpu_capacity)
        × Asked updated.memory_max_mb (current_max_mem me)
        × (trim_space (recorded_cpus me) ≡ trim_space updated.client_cpu_set)

    abbrev Weight : Executor → Type 0
    Weight me = Cpus me × Asked updated.cpu_weight (u32 me.cpu_weight)

    update_capacity-After :
        (cap : Option ℕ) (w : W)
        → updated.cpu_capacity ≡ cap
        → Covers start
        → Fits32 cap
        → After Capacity (update_capacity ctl physical cap start w)
    unfolding need_update_cpu_cap update_cpu_capacity
    update_capacity-After none w e c h = (c, refl, rw e tt)
    update_capacity-After (some cap) w e c h =
        if_needed-After Capacity (need_update_cpu_cap physical cap start) _ start w
          (settle-After Capacity _ start (record start { cpu_capacity = cap })
            (record { covered = c.covered; fits = c.fits }, refl, rw e (ground arith)))
          (λ unneeded. (c, refl, rw e (ground arith)))

    update_limit-After :
        (limit : Option ℕ) (me : Executor) (w : W)
        → updated.memory_max_mb ≡ limit
        → Capacity me
        → Fits32 limit
        → After Limit (update_limit ctl limit me w)
    update_limit-After none me w e c h = (c, rw e tt)
    update_limit-After (some mb) me w e c h =
        if_needed-After Limit (need_update_mem_limit mb me) (ensure_memory_limit ctl mb me w) me w
          (After-intro Limit (ensure_memory_limit ctl mb me w) (λ done.
            let r = ensure_memory_limit_lem ctl mb me w c.0 h in
            let (strs, caps) = ensure_memory_limit-kept mb me w in
            ((r.0.covers, strs ∙ c.1, rw caps c.2), rw e (r.1 done).0)))
          (λ unneeded. (c, rw e (no_limit mb me unneeded)))

    update_cpus-After :
        (me : Executor) (w : W)
        → Limit me
        → length updated.client_cpu_set ≤ 128
        → All (λ b. b ≢ 0) updated.client_cpu_set
        → After Cpus (update_cpus ctl (recorded_cpus start) updated.client_cpu_set me w)
    unfolding update_pcpu_constrains recorded_cpus current_max_mem
    update_cpus-After me w h size nonzero =
        let new = updated.client_cpu_set in
        if_needed-After Cpus (need_update_cpu_set (recorded_cpus start) new me) _ me w
          (settle-After Cpus _ me (record me { cpu_str = copy_into 128 new })
            (h.0.2, h.1, ap trim_space (trim_right_nul-copy_into 128 new size nonzero)))
          (λ unneeded. (h.0.2, h.1, same_cpus start me new h.0.1 unneeded))

    update_weight-After :
        (weight : Option ℕ) (me : Executor) (w : W)
        → updated.cpu_weight ≡ weight
        → Cpus me
        → Fits32 weight
        → After Weight (update_weight ctl weight me w)
    unfolding update_cpu_weight need_update_cpu_share current_max_mem recorded_cpus
    update_weight-After none me w e c h = (c, rw e tt)
    update_weight-After (some weight) me w e c h =
        if_needed-After Weight (need_update_cpu_share weight me) _ me w
          (settle-After Weight _ me (record me { cpu_weight = weight }) (c, rw e (ground arith)))
          (λ unneeded. (c, rw e (ground arith)))

    update_vcpus-After :
        (old new : Option ℕ) (me : Executor) (w : W)
        → Weight me
        → After Weight (update_vcpus ctl physical old new me w)
    unfolding update_vcpu_num
    update_vcpus-After none new me w h = h
    update_vcpus-After (some old) none me w h = h
    update_vcpus-After (some old) (some new) me w h =
        if_needed-After Weight (need_update_vcpus physical new me)
          (logged ctl (update_vcpu_num ctl new me w)) me w (ground arith) (λ _. h)

  After_elim : (P : Executor → Type 0) (r : W × Executor × Bool) → After P r → r.2 ≡ true → P r.1
  After_elim P (w, me, true) h e = h
  After_elim P (w, me, false) h e = cc

  -- For a record whose threshold covers its memory, numbers of 32 bits and a CPU text that fits its
  -- array and holds no NUL byte: if updateContainerResource gives no error, the record holds the
  -- capacity, the memory and the weight that were asked for, where they were, and the CPU text, up to
  -- the spaces around it, also if that is the empty one.
  pub update_container_resource_lem :
      (physical : ℕ) (updated : EssentialResource) (me : Executor) (w : W)
      → Covers me
      → Fits32 updated.cpu_capacity × Fits32 updated.memory_max_mb × Fits32 updated.cpu_weight
      → length updated.client_cpu_set ≤ 128
      → All (λ b. b ≢ 0) updated.client_cpu_set
      → (update_container_resource ctl physical updated me w).2 ≡ true
      → let r = update_container_resource ctl physical updated me w in
        Asked updated.cpu_capacity (u32 r.1.cpu_capacity)
        × Asked updated.memory_max_mb (current_max_mem r.1)
        × (trim_space (recorded_cpus r.1) ≡ trim_space updated.client_cpu_set)
        × Asked updated.cpu_weight (u32 r.1.cpu_weight)
  unfolding update_container_resource read_resource
  update_container_resource_lem physical updated me w c fits size nonzero done =
      let P1 = Capacity physical updated me in
      let P2 = Limit physical updated me in
      let P3 = Cpus physical updated me in
      let P4 = Weight physical updated me in
      let chain : After P4 (update_container_resource ctl physical updated me w) =
        then_do-After P1 P4 _ _
          (update_capacity-After physical updated me updated.cpu_capacity w refl c fits.0)
          (λ me1 w1 h1.
            then_do-After P2 P4 _ _
              (update_limit-After physical updated me updated.memory_max_mb me1 w1 refl h1 fits.1)
              (λ me2 w2 h2.
                then_do-After P3 P4 _ _
                  (update_cpus-After physical updated me me2 w2 h2 size nonzero)
                  (λ me3 w3 h3.
                    then_do-After P4 P4 _ _
                      (update_weight-After physical updated me updated.cpu_weight me3 w3 refl h3
                        fits.2)
                      (λ me4 w4 h4.
                        update_vcpus-After physical updated me (read_resource me).vcpu updated.vcpu
                          me4 w4 h4)))) in
      let h = After_elim P4 (update_container_resource ctl physical updated me w) chain done in
      (h.0.0, h.0.1, h.0.2, h.1)

-- ===== src/Mica/CpuString/Range.antt =====
-- pkg/libmica/utils.go: the CPUs that ParseCPUString lists are ints.
use mathlib.Core.Option.{some-injective}
use micrun.Prelude.{
  ◌&&◌, ℕ, zero, suc, ◌+◌, ◌-◌, ◌≤◌, List, [], ◌∷◌, ◌≡◌, refl, true, false, Option, none, some, ℤ,
  pos, negsuc, Bytes, arith, All, All-append, if◌then◌else◌, Bool-cases, inl, inr, subst,
}
use micrun.Text.{atoi, atoi-le, split, trim_space, has_byte, max_int}
use micrun.Cpuset.Parse.{span, upto}
use micrun.Cpuset.Ranges.{Fits}
use micrun.Mica.CpuString.{
  are_valid_groups, atoi_value, expand_range, expand, expand_groups, groups_end, parse_cpu_string,
}

pub atoi_value-le : (s : Bytes) → atoi_value s ≤ max_int
unfolding atoi_value
atoi_value-le s = go (atoi s) refl
  where
    go : (v : Option ℤ) → atoi s ≡ v → atoi_value s ≤ max_int
    go none e = rw (e, atoi_value) (omega arith)
    go (some (pos n)) e = rw (e, atoi_value) (atoi-le s n e)
    go (some (negsuc n)) e = rw (e, atoi_value) (omega arith)

pub upto-All : (m n i : ℕ) → i + n ≤ m + 1 → All (λ c. c ≤ m) (upto n i)
upto-All m zero i h = tt
upto-All m (suc n) i h = (omega arith, upto-All m n (i + 1) (omega arith))

pub span-Fits : (lo hi : ℕ) → lo ≤ max_int → hi ≤ max_int → Fits (span lo hi)
span-Fits lo hi h k = upto-All max_int (hi + 1 - lo) lo (omega arith)

expand_range-Fits : (parts : List Bytes) → Fits (expand_range parts)
unfolding expand_range
expand_range-Fits [] = tt
expand_range-Fits (lo ∷ []) = tt
expand_range-Fits (lo ∷ hi ∷ parts) = span-Fits _ _ (atoi_value-le _) (atoi_value-le _)

expand-Fits : (g : Bytes) → Fits (expand g)
unfolding expand
expand-Fits g =
    elim (has_byte b'-' g)
      as (λ b. Fits (if b then expand_range (split b'-' g) else atoi_value g ∷ [])) [
        | true ↦ expand_range-Fits (split b'-' g)
        | false ↦ (atoi_value-le g, tt)
      ]

expand_groups-Fits : (gs : List Bytes) → Fits (expand_groups gs)
unfolding expand_groups
expand_groups-Fits [] = tt
expand_groups-Fits (g ∷ gs) =
    All-append (λ c. c ≤ max_int) (expand (trim_space g)) (expand_groups gs)
      (expand-Fits (trim_space g)) (expand_groups-Fits gs)

-- Every CPU that ParseCPUString lists fits an int.
pub parse_cpu_string-Fits : (s : Bytes) {cpus : List ℕ} → parse_cpu_string s ≡ some cpus → Fits cpus
unfolding parse_cpu_string
parse_cpu_string-Fits [] {cpus} h = subst Fits (some-injective [] cpus h) tt
parse_cpu_string-Fits (c ∷ s) {cpus} h =
    elim (Bool-cases (are_valid_groups (split b',' (c ∷ s)) && groups_end (split b',' (c ∷ s)))) [
      | inl valid ↦
          subst Fits (some-injective _ cpus (rw (← h, valid)))
            (expand_groups-Fits (split b',' (c ∷ s)))
      | inr invalid ↦ absurd (ground arith)
    ]

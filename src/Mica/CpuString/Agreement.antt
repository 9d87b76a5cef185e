-- ===== src/Mica/CpuString/Agreement.antt =====
-- pkg/libmica/utils.go against pkg/cpuset/cpuset.go and pkg/pedestal/parser.go: the three readers
-- and writers of CPU lists agree.
use micrun.Prelude.{
  ℕ, List, [], ◌∷◌, ◌≡◌, refl, sym, ◌∙◌, ap, true, Option, none, some, pos, negsuc, Bytes, arith,
  Bool-cases, inl, inr, ℤ, ltb,
}
use micrun.Text.{max_int, Lacks, Lacks-has_byte, atoi-nonneg, atoi, split, trim_space, has_byte}
use micrun.Cpuset.{CpuSet, put, put_all, new_cpu_set}
use micrun.Cpuset.Members.{put_all-append}
use micrun.Cpuset.Parse.{
  span, read_cpu, parse_ends, parse_range, parse_single, parse_part, parse_parts, parse,
}
use micrun.Mica.CpuString.{
  valid_ends, valid_range, is_number, is_valid_group, are_valid_groups, atoi_value, expand_range,
  expand, expand_groups, range_ends, group_ends, groups_end, parse_cpu_string,
}

ends_agree :
    (lo hi : Bytes) (set : CpuSet)
    → valid_ends (atoi lo) (atoi hi) ≡ true
    → ltb (atoi_value hi) max_int ≡ true
    → parse_ends (read_cpu lo) (read_cpu hi) set
      ≡ (put_all (span (atoi_value lo) (atoi_value hi)) set, none)
unfolding valid_ends parse_ends read_cpu atoi_value
ends_agree lo hi set h e = ground arith

range_agree :
    (parts : List Bytes) (set : CpuSet)
    → valid_range parts ≡ true
    → range_ends parts ≡ true
    → parse_range parts set ≡ (put_all (expand_range parts) set, none)
unfolding valid_range parse_range expand_range range_ends
range_agree [] set h e = cc
range_agree (lo ∷ []) set h e = cc
range_agree (lo ∷ hi ∷ []) set h e = ends_agree (trim_space lo) (trim_space hi) set h e
range_agree (lo ∷ hi ∷ x ∷ parts) set h e = cc

single_agree :
    (s : Bytes) (set : CpuSet) (v : Option ℤ)
    → atoi s ≡ v
    → Lacks b'-' s
    → is_number v ≡ true
    → parse_single (read_cpu s) set ≡ (put (atoi_value s) set, none)
unfolding parse_single read_cpu atoi_value
single_agree s set none e n h = cc
single_agree s set (some (pos v)) e n h = rw (e, read_cpu, atoi_value)
single_agree s set (some (negsuc v)) e n h = absurd (atoi-nonneg s v n e)

group_agree :
    (g : Bytes) (set : CpuSet)
    → is_valid_group g ≡ true
    → group_ends g ≡ true
    → parse_part g set ≡ (put_all (expand g) set, none)
unfolding is_valid_group parse_part expand put_all group_ends
group_agree [] set h e = cc
group_agree (c ∷ g) set h e = elim (Bool-cases (has_byte b'-' (c ∷ g))) [
  | inl dash ↦ rw dash (range_agree (split b'-' (c ∷ g)) set (rw dash at h) (rw dash at e))
  | inr plain ↦ rw plain (
      single_agree (c ∷ g) set (atoi (c ∷ g)) refl (Lacks-has_byte b'-' (c ∷ g) plain)
        (rw plain at h))
]

groups_agree :
    (gs : List Bytes) (set : CpuSet)
    → are_valid_groups gs ≡ true
    → groups_end gs ≡ true
    → parse_parts gs set ≡ (put_all (expand_groups gs) set, none)
unfolding are_valid_groups parse_parts expand_groups groups_end
groups_agree [] set h e = unfold put_all in refl
groups_agree (g ∷ gs) set h e = rw (group_agree (trim_space g) set (ground arith) (ground arith)) (
    groups_agree gs (put_all (expand (trim_space g)) set) (ground arith) (ground arith)
    ∙ ap (λ s. (s, none)) (sym (put_all-append (expand (trim_space g)) (expand_groups gs) set)))

-- What ParseCPUString accepts, Parse accepts too, and gives the set of the CPUs that it lists.
pub parse-parse_cpu_string :
    (s : Bytes) (cpus : List ℕ)
    → parse_cpu_string s ≡ some cpus
    → parse s ≡ (new_cpu_set cpus, none)
unfolding parse parse_cpu_string new_cpu_set put_all
parse-parse_cpu_string [] cpus h = ground arith
parse-parse_cpu_string (c ∷ s) cpus h = ground (arith, groups_agree (split b',' (c ∷ s)) [])

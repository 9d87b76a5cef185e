-- ===== src/Examples/CpuLists.antt =====
-- Sets and lists of CPUs: pkg/cpuset, pkg/pedestal/parser.go, pkg/libmica/utils.go.
use micrun.Prelude.{ℕ, ◌≡◌, refl, [], ◌∷◌, ◌||◌, ◌&&◌, not, none, some, codes, arith}
use micrun.Text.{join, itoa, split, trim_space, atoi}
use micrun.Sorting.{sort_ints}
use micrun.Cpuset.{
  CpuSet, new_cpu_set, contains, union, intersection, difference, to_slice, is_empty,
}
use micrun.Cpuset.Members.{Uniq, contains-operations}
use micrun.Cpuset.Print.{to_string}
use micrun.Cpuset.Parse.{parse}
use micrun.Cpuset.Ranges.{Below}
use micrun.Cpuset.RoundTrip.{parse-to_string}
use micrun.Pedestal.CpuArray.{parse_cpu_arr}
use micrun.Mica.CpuString.{parse_cpu_string}
use micrun.Mica.CpuString.Agreement.{parse-parse_cpu_string}
use micrun.Mica.CpuString.RoundTrip.{parse_cpu_string-parse_cpu_arr}

abbrev five_cpus : CpuSet
five_cpus = 7 ∷ 0 ∷ 2 ∷ 1 ∷ 4 ∷ []

abbrev five_again : CpuSet
five_again = 4 ∷ 1 ∷ 7 ∷ 0 ∷ 2 ∷ []

abbrev other_cpus : CpuSet
other_cpus = 1 ∷ 3 ∷ []

-- The number of a test CPU.
abbrev three : ℕ
three = 3

five_printed : to_string five_cpus ≡ codes "0-2,4,7"
unfolding to_string is_empty to_slice sort_ints join itoa
five_printed = refl

five_parsed : parse_cpu_string (codes " 0-2, 4 ,7") ≡ some (0 ∷ 1 ∷ 2 ∷ 4 ∷ 7 ∷ [])
unfolding parse_cpu_string split trim_space atoi
five_parsed = refl

five-Uniq : Uniq five_cpus
five-Uniq = ground arith

five_again-Uniq : Uniq five_again
five_again-Uniq = ground arith

five-Below : Below five_cpus
five-Below = ground arith

same_cpus : (x : ℕ) → contains five_cpus x ≡ contains five_again x
same_cpus x = ground arith

parse-to_string_example :
    ((parse (to_string five_cpus)).1 ≡ none)
    × ((x : ℕ) → contains (parse (to_string five_cpus)).0 x ≡ contains five_cpus x)
parse-to_string_example = parse-to_string five_cpus five-Uniq five-Below

contains-operations_example :
    (contains (union five_cpus other_cpus) three
      ≡ (contains five_cpus three || contains other_cpus three))
    × (contains (intersection five_cpus other_cpus) three
        ≡ (contains five_cpus three && contains other_cpus three))
    × (contains (difference five_cpus other_cpus) three
        ≡ (contains five_cpus three && not (contains other_cpus three)))
contains-operations_example = contains-operations five_cpus other_cpus three

parse-parse_cpu_string_example :
    parse (codes " 0-2, 4 ,7") ≡ (new_cpu_set (0 ∷ 1 ∷ 2 ∷ 4 ∷ 7 ∷ []), none)
parse-parse_cpu_string_example =
    parse-parse_cpu_string (codes " 0-2, 4 ,7") (0 ∷ 1 ∷ 2 ∷ 4 ∷ 7 ∷ []) five_parsed

parse_cpu_string-parse_cpu_arr_example :
    parse_cpu_string (parse_cpu_arr five_cpus) ≡ some (sort_ints five_cpus)
parse_cpu_string-parse_cpu_arr_example = parse_cpu_string-parse_cpu_arr five_cpus five-Below

-- ===== src/Cpuset/Print.antt =====
-- pkg/cpuset/cpuset.go: String. The outer loop takes a run of consecutive CPUs in each round, so as
-- many rounds as there are CPUs are enough (RoundTrip).
use micrun.Prelude.{
  ℕ, zero, suc, ◌+◌, List, [], ◌∷◌, ◌++◌, true, false, Bytes, ◌==◌, if◌then◌else◌, length,
}
use micrun.Text.{itoa, join}
use micrun.Cpuset.{CpuSet, to_slice, is_empty}

-- What String appends for a run of CPUs.
unfoldable pub print_range : ℕ → ℕ → Bytes
print_range start end = if start == end then itoa start else itoa start ++ (b'-' ∷ itoa end)

-- The inner loop: the last CPU of the run that goes on from `end`, and the CPUs behind it.
unfoldable pub extend : ℕ → List ℕ → ℕ × List ℕ
extend end [] = (end, [])
extend end (x ∷ xs) = elim (x == end + 1) [ true ↦ extend x xs | false ↦ (end, x ∷ xs) ]

-- The outer loop.
unfoldable pub ranges : ℕ → List ℕ → List Bytes
unfolding print_range extend
ranges zero cpus = []
ranges (suc f) [] = []
ranges (suc f) (start ∷ cpus) =
    let (end, rest) = extend start cpus in print_range start end ∷ ranges f rest

unfoldable pub print_slice : List ℕ → Bytes
unfolding ranges
print_slice [] = []
print_slice (cpu ∷ []) = itoa cpu
print_slice (cpu ∷ next ∷ cpus) = let all = cpu ∷ next ∷ cpus in join b',' (ranges (length all) all)

-- String
unfoldable pub to_string : CpuSet → Bytes
unfolding print_slice
to_string set = if is_empty set then [] else print_slice (to_slice set)

-- ===== src/Cpuset.antt =====
-- pkg/cpuset/cpuset.go: CPUSet and its operations. `cpus map[int]bool` holds only `true`, so a set
-- is the list of its keys; Go does not fix the order in which a map is walked, and no theorem reads
-- it. A CPU number is an `int` that is not negative: Parse reads it from a text with no minus sign
-- (Text.atoi-nonneg), and the other callers count from 0.
use micrun.Prelude.{
  ℕ, suc, List, [], ◌∷◌, Bool, true, false, ◌&&◌, not, elem, ◌==◌, if◌then◌else◌, length,
}
use micrun.Sorting.{sort_ints}
pub mod Members
pub mod Slice
pub mod Print
pub mod Parse
pub mod Ranges
pub mod RoundTrip
pub mod Bounds

abbrev pub CpuSet : Type 0
CpuSet = List ℕ

-- set.cpus[cpu] = true
unfoldable pub put : ℕ → CpuSet → CpuSet
put c s = if elem c s then s else c ∷ s

-- The loop that puts every number of a list.
unfoldable pub put_all : List ℕ → CpuSet → CpuSet
put_all [] s = s
put_all (c ∷ cs) s = put_all cs (put c s)

-- NewCPUSet
unfoldable pub new_cpu_set : List ℕ → CpuSet
new_cpu_set cpus = put_all cpus []

-- Contains
abbrev pub contains : CpuSet → ℕ → Bool
contains set cpu = elem cpu set

-- Size
abbrev pub size : CpuSet → ℕ
size set = length set

-- IsEmpty
unfoldable pub is_empty : CpuSet → Bool
is_empty set = size set == 0

-- ToSlice
unfoldable pub to_slice : CpuSet → List ℕ
to_slice set = sort_ints set

-- The loop of Equals: every key of the first set is in the second.
unfoldable pub all_in : List ℕ → CpuSet → Bool
all_in [] other = true
all_in (c ∷ cs) other = contains other c && all_in cs other

-- Equals
unfoldable pub equals : CpuSet → CpuSet → Bool
unfolding all_in
equals set other = if size set == size other then all_in set other else false

-- Union
unfoldable pub union : CpuSet → CpuSet → CpuSet
unfolding put_all
union set other = put_all other (put_all set [])

-- The loop of Intersection and Difference: it puts the keys that pass the test.
unfoldable pub select : (ℕ → Bool) → List ℕ → CpuSet → CpuSet
select p [] result = result
select p (c ∷ cs) result = select p cs (if p c then put c result else result)

-- Intersection
unfoldable pub intersection : CpuSet → CpuSet → CpuSet
unfolding select
intersection set other = select (contains other) set []

-- Difference
unfoldable pub difference : CpuSet → CpuSet → CpuSet
unfolding select
difference set other = select (λ c. not (contains other c)) set []

-- ===== src/Pedestal/CpuArray.antt =====
-- pkg/pedestal/parser.go: ParseCPUArr.
use micrun.Prelude.{
  ℕ, zero, suc, ◌+◌, ◌-◌, List, [], ◌∷◌, ◌++◌, true, false, Bytes, ◌==◌, ltb, if◌then◌else◌, length,
}
use micrun.Text.{itoa}
pub mod Sorting
pub mod Agreement

-- The inner loop of the bubble sort, with `n` comparisons.
unfoldable pub bubble_pass : ℕ → List ℕ → List ℕ
bubble_pass zero xs = xs
bubble_pass (suc n) [] = []
bubble_pass (suc n) (x ∷ []) = x ∷ []
bubble_pass (suc n) (x ∷ y ∷ xs) = elim (ltb y x) [
  | true ↦ y ∷ bubble_pass n (x ∷ xs)
  | false ↦ x ∷ bubble_pass n (y ∷ xs)
]

-- The outer loop: round i makes len - i - 1 comparisons, so the rounds count down to one.
unfoldable pub bubble_rounds : ℕ → List ℕ → List ℕ
bubble_rounds zero xs = xs
bubble_rounds (suc n) xs = bubble_rounds n (bubble_pass (suc n) xs)

unfoldable pub bubble_sort : List ℕ → List ℕ
unfolding bubble_rounds bubble_pass
bubble_sort xs = bubble_rounds (length xs - 1) xs

-- What is written for a range.
unfoldable pub write_range : ℕ → ℕ → Bytes
write_range start end = if start == end then itoa start else itoa start ++ (b'-' ∷ itoa end)

-- The loop over the sorted array, with the range read so far.
unfoldable pub write_ranges : ℕ → ℕ → List ℕ → Bytes
unfolding write_range
write_ranges start end [] = write_range start end
write_ranges start end (x ∷ xs) = elim (x == end + 1) [
  | true ↦ write_ranges start x xs
  | false ↦ write_range start end ++ (b',' ∷ write_ranges x x xs)
]

-- ParseCPUArr, behind the sort.
unfoldable pub write_sorted : List ℕ → Bytes
unfolding write_ranges
write_sorted [] = []
write_sorted (x ∷ xs) = write_ranges x x xs

unfoldable pub parse_cpu_arr : List ℕ → Bytes
unfolding bubble_sort write_sorted
parse_cpu_arr cpus = write_sorted (bubble_sort cpus)

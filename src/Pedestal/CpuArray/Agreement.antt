-- ===== src/Pedestal/CpuArray/Agreement.antt =====
-- pkg/pedestal/parser.go and pkg/cpuset/cpuset.go print one set of CPUs alike.
use micrun.Prelude.{
  ℕ, zero, suc, ◌+◌, ◌≤◌, List, [], ◌∷◌, ◌++◌, ◌≡◌, refl, ap, arith, ◌==◌, length, Bool-cases, inl,
  inr,
}
use micrun.Text.{join}
use micrun.Sorting.{sort_ints}
use micrun.Cpuset.{CpuSet, to_slice, is_empty}
use micrun.Cpuset.Print.{print_range, extend, ranges, print_slice, to_string}
use micrun.Pedestal.CpuArray.{write_ranges, write_sorted, parse_cpu_arr}
use micrun.Pedestal.CpuArray.Sorting.{bubble_sort-eq-sort_ints}

-- The nested loops of String write what the single loop of ParseCPUArr writes.
join-ranges :
    (f start end : ℕ) (xs : List ℕ)
    → length xs ≤ f
    → join b',' (print_range start (extend end xs).0 ∷ ranges f (extend end xs).1)
      ≡ write_ranges start end xs
unfolding write_ranges print_range ranges extend join
join-ranges zero start end [] h = refl
join-ranges (suc f) start end [] h = refl
join-ranges zero start end (x ∷ xs) h = absurd (omega arith)
join-ranges (suc f) start end (x ∷ xs) h = elim (Bool-cases (x == end + 1)) [
  | inl next ↦ rw (next, extend, write_ranges) (join-ranges (suc f) start x xs (omega arith))
  | inr gap ↦
      rw (gap, extend, write_ranges)
        (ap (λ l. print_range start end ++ (b',' ∷ l)) (join-ranges f x x xs (omega arith)))
]

pub print_slice-eq-write_sorted : (xs : List ℕ) → print_slice xs ≡ write_sorted xs
unfolding print_slice write_sorted
print_slice-eq-write_sorted [] = refl
print_slice-eq-write_sorted (x ∷ []) = ground arith
print_slice-eq-write_sorted (x ∷ y ∷ xs) = join-ranges (suc (length xs)) x x (y ∷ xs) (omega arith)

-- String of a set is ParseCPUArr of the list of its CPUs, whatever the order of the list.
pub to_string-eq-parse_cpu_arr : (s : CpuSet) → to_string s ≡ parse_cpu_arr s
unfolding to_string is_empty to_slice parse_cpu_arr
to_string-eq-parse_cpu_arr [] = refl
to_string-eq-parse_cpu_arr (c ∷ s) =
    ground
      (arith, print_slice-eq-write_sorted (sort_ints (c ∷ s)), bubble_sort-eq-sort_ints (c ∷ s))

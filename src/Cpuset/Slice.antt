-- ===== src/Cpuset/Slice.antt =====
-- pkg/cpuset/cpuset.go: ToSlice gives one slice for each set of CPUs, in ascending order.
use micrun.Prelude.{
  ℕ, ◌≤◌, ◌<◌, List, [], ◌∷◌, ◌≡◌, refl, true, false, arith, All, elem, if◌then◌else◌, inl, inr,
  Bool-cases,
}
use micrun.Sorting.{
  sort_ints, Sorted, count, count-sort_ints, sort_ints-All, sort_ints-Sorted, Sorted-unique,
  elem-count,
}
use micrun.Cpuset.{CpuSet, contains, to_slice}
use micrun.Cpuset.Members.{Uniq}

-- Each number is above those before it.
abbrev pub Ascending : List ℕ → Type 0
Ascending [] = Unit
Ascending (x ∷ xs) = All (λ y. x < y) xs × Ascending xs

pub count-elem : (x : ℕ) (s : List ℕ) → Uniq s → count x s ≡ (if elem x s then 1 else 0)
count-elem x [] _ = refl
count-elem x (y ∷ s) (new, u) = ground (arith, count-elem x s u)

pub elem-count_pos : (x : ℕ) (s : List ℕ) → elem x s ≡ true → 1 ≤ count x s
elem-count_pos x [] h = cc
elem-count_pos x (y ∷ s) h = ground (arith, elem-count_pos x s)

elem-sort_ints : (x : ℕ) (s : List ℕ) → elem x (sort_ints s) ≡ elem x s
elem-sort_ints x s = elim (Bool-cases (elem x s)) [
  | inl there ↦
      ground (arith, elem-count x (sort_ints s), count-sort_ints x s, elem-count_pos x s there)
  | inr gone ↦ ground (arith, elem-count x s, count-sort_ints x s, elem-count_pos x (sort_ints s))
]

-- A sorted list in which no number stands twice is ascending.
strict : (x : ℕ) (xs : List ℕ) → All (λ y. x ≤ y) xs → elem x xs ≡ false → All (λ y. x < y) xs
strict x [] _ _ = tt
strict x (y ∷ xs) (le, low) n = (ground arith, strict x xs low (ground arith))

Sorted-Ascending : (xs : List ℕ) → Sorted xs → ((a : ℕ) → count a xs ≤ 1) → Ascending xs
Sorted-Ascending [] _ _ = tt
Sorted-Ascending (x ∷ xs) (low, s) once = (
  strict x xs low (elim (Bool-cases (elem x xs)) [
    | inl there ↦ absurd (ground (arith, once x, elem-count_pos x xs there))
    | inr gone ↦ gone
  ]),
  Sorted-Ascending xs s (λ a. ground (arith, once a)),
)

-- ToSlice gives the CPUs of the set in ascending order, each once.
pub to_slice_lem :
    (s : CpuSet) → Uniq s → Ascending (to_slice s) × ((x : ℕ) → elem x (to_slice s) ≡ contains s x)
unfolding to_slice
to_slice_lem s u = (
  Sorted-Ascending (sort_ints s) (sort_ints-Sorted s)
      (λ a. ground (arith, count-sort_ints a s, count-elem a s u)),
  λ x. elem-sort_ints x s,
)

-- Sets that hold the same CPUs have one slice, whatever the order in which their maps are walked.
pub to_slice_canonical :
    (a b : CpuSet)
    → Uniq a
    → Uniq b
    → ((x : ℕ) → contains a x ≡ contains b x)
    → to_slice a ≡ to_slice b
unfolding to_slice
to_slice_canonical a b ua ub h =
    Sorted-unique (sort_ints a) (sort_ints b) (sort_ints-Sorted a) (sort_ints-Sorted b) λ x.
      ground
        (arith, count-sort_ints x a, count-sort_ints x b, count-elem x a ua, count-elem x b ub, h x)

-- ToSlice keeps what holds of every CPU.
pub to_slice-All {κ} : (P : ℕ → Type κ) (s : CpuSet) → All P s → All P (to_slice s)
unfolding to_slice
to_slice-All P s h = sort_ints-All P s h

-- ===== src/Pedestal/CpuArray/Sorting.antt =====
-- pkg/pedestal/parser.go: the bubble sort of ParseCPUArr sorts.
use micrun.Prelude.{
  ℕ, zero, suc, ◌-◌, ◌≤◌, List, [], ◌∷◌, ◌++◌, ◌≡◌, refl, sym, ◌∙◌, ap, arith, All, inl, inr,
  Bool-cases, subst, ltb, length, append-nil, if◌then◌else◌,
}
use micrun.Sorting.{sort_ints, Sorted, count, count-sort_ints, sort_ints-Sorted, Sorted-unique}
use micrun.Pedestal.CpuArray.{bubble_pass, bubble_rounds, bubble_sort}

-- What one pass over `x` and `xs` leaves: the largest number, behind the others.
abbrev sink : ℕ → List ℕ → List ℕ × ℕ
sink x [] = ([], x)
sink x (y ∷ ys) =
    let down = sink (if ltb y x then x else y) ys in ((if ltb y x then y else x) ∷ down.0, down.1)

bubble_pass-sink :
    (x : ℕ) (xs back : List ℕ)
    → bubble_pass (length xs) (x ∷ (xs ++ back)) ≡ (sink x xs).0 ++ ((sink x xs).1 ∷ back)
unfolding bubble_pass
bubble_pass-sink x [] back = refl
bubble_pass-sink x (y ∷ ys) back =
    ground (arith, bubble_pass-sink x ys back, bubble_pass-sink y ys back)

length-sink : (x : ℕ) (xs : List ℕ) → length (sink x xs).0 ≡ length xs
length-sink x [] = refl
length-sink x (y ∷ ys) = ap suc (length-sink (if ltb y x then x else y) ys)

count-sink : (a x : ℕ) (xs : List ℕ) → count a ((sink x xs).1 ∷ (sink x xs).0) ≡ count a (x ∷ xs)
count-sink a x [] = refl
count-sink a x (y ∷ ys) = ground (arith, count-sink a (if ltb y x then x else y) ys)

module _ {κ} (P : ℕ → Type κ) where
  sink-All : (x : ℕ) (xs : List ℕ) → P x → All P xs → All P (sink x xs).0 × P (sink x xs).1
  sink-All x [] px _ = (tt, px)
  sink-All x (y ∷ ys) px (py, h) = elim (Bool-cases (ltb y x)) [
    | inl out ↦ rw out (let (l, m) = sink-All x ys px h in ((py, l), m))
    | inr ordered ↦ rw ordered (let (l, m) = sink-All y ys py h in ((px, l), m))
  ]

le-sink : (x : ℕ) (xs : List ℕ) → x ≤ (sink x xs).1
le-sink x [] = omega arith
le-sink x (y ∷ ys) = ground (arith, le-sink (if ltb y x then x else y) ys)

sink_largest : (x : ℕ) (xs : List ℕ) → All (λ y. y ≤ (sink x xs).1) (sink x xs).0
sink_largest x [] = tt
sink_largest x (y ∷ ys) = (
  ground (arith, le-sink (if ltb y x then x else y) ys),
  sink_largest (if ltb y x then x else y) ys,
)

-- The front is below the back, and the back is sorted.
record Split (front back : List ℕ) : Type 0 where
  sorted : Sorted back
  below : All (λ a. All (λ b. a ≤ b) back) front

bubble_pass-length :
    (n x : ℕ) (xs back : List ℕ)
    → length xs ≡ n
    → bubble_pass n (x ∷ (xs ++ back)) ≡ (sink x xs).0 ++ ((sink x xs).1 ∷ back)
bubble_pass-length n x xs back e =
    subst (λ k. bubble_pass k (x ∷ (xs ++ back)) ≡ (sink x xs).0 ++ ((sink x xs).1 ∷ back)) e
      (bubble_pass-sink x xs back)

module _ (back : List ℕ) (m : ℕ) where
  below_both :
      (xs : List ℕ)
      → All (λ a. All (λ b. a ≤ b) back) xs
      → All (λ y. y ≤ m) xs
      → All (λ a. All (λ b. a ≤ b) (m ∷ back)) xs
  below_both [] _ _ = tt
  below_both (a ∷ xs) (low, h) (le, k) = ((le, low), below_both xs h k)

sink-Split :
    (x : ℕ) (xs back : List ℕ) → Split (x ∷ xs) back → Split (sink x xs).0 ((sink x xs).1 ∷ back)
sink-Split x xs back s =
    let (low, least) = sink-All (λ a. All (λ b. a ≤ b) back) x xs s.below.0 s.below.1 in
    record {
      sorted = (least, s.sorted);
      below = below_both back (sink x xs).1 (sink x xs).0 low (sink_largest x xs);
    }

bubble_rounds-Sorted :
    (n x : ℕ) (front back : List ℕ)
    → length front ≡ n
    → Split (x ∷ front) back
    → Sorted (bubble_rounds n (x ∷ (front ++ back)))
unfolding bubble_rounds
bubble_rounds-Sorted zero x [] back e s = (s.below.0, s.sorted)
bubble_rounds-Sorted zero x (y ∷ ys) back e s = absurd (omega arith)
bubble_rounds-Sorted (suc n) x [] back e s = absurd (omega arith)
bubble_rounds-Sorted (suc n) x (y ∷ ys) back e s =
    let larger = if ltb y x then x else y in
    subst (λ l. Sorted (bubble_rounds n l)) (sym (bubble_pass-length (suc n) x (y ∷ ys) back e))
      (bubble_rounds-Sorted n (if ltb y x then y else x) (sink larger ys).0
        ((sink larger ys).1 ∷ back) (omega (arith, length-sink larger ys))
        (sink-Split x (y ∷ ys) back s))

count-bubble_pass : (a n : ℕ) (xs : List ℕ) → count a (bubble_pass n xs) ≡ count a xs
unfolding bubble_pass
count-bubble_pass a zero xs = refl
count-bubble_pass a (suc n) [] = refl
count-bubble_pass a (suc n) (x ∷ []) = refl
count-bubble_pass a (suc n) (x ∷ y ∷ xs) =
    ground (arith, count-bubble_pass a n (x ∷ xs), count-bubble_pass a n (y ∷ xs))

count-bubble_rounds : (a n : ℕ) (xs : List ℕ) → count a (bubble_rounds n xs) ≡ count a xs
unfolding bubble_rounds
count-bubble_rounds a zero xs = refl
count-bubble_rounds a (suc n) xs =
    count-bubble_rounds a n (bubble_pass (suc n) xs) ∙ count-bubble_pass a (suc n) xs

-- With nothing behind the front, the whole list is sorted.
nothing_behind : (xs : List ℕ) → All (λ a. All (λ b. a ≤ b) []) xs
nothing_behind [] = tt
nothing_behind (x ∷ xs) = (tt, nothing_behind xs)

bubble_sort-Sorted : (xs : List ℕ) → Sorted (bubble_sort xs)
unfolding bubble_sort bubble_rounds
bubble_sort-Sorted [] = tt
bubble_sort-Sorted (x ∷ xs) =
    subst (λ l. Sorted (bubble_rounds (suc (length xs) - 1) (x ∷ l))) (append-nil xs)
      (bubble_rounds-Sorted (suc (length xs) - 1) x xs [] (omega arith)
        (record { sorted = tt; below = nothing_behind (x ∷ xs) }))

-- The bubble sort gives what sort.Ints gives.
pub bubble_sort-eq-sort_ints : (xs : List ℕ) → bubble_sort xs ≡ sort_ints xs
unfolding bubble_sort
bubble_sort-eq-sort_ints xs =
    Sorted-unique (bubble_sort xs) (sort_ints xs) (bubble_sort-Sorted xs) (sort_ints-Sorted xs)
      λ a. count-bubble_rounds a (length xs - 1) xs ∙ sym (count-sort_ints a xs)

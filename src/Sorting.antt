-- ===== src/Sorting.antt =====
-- Go's sort.Ints, and what makes two sorted lists equal. Shared by the CPU sets and the CPU arrays.
use micrun.Prelude.{
  ℕ, suc, ◌+◌, ◌≤◌, List, [], ◌∷◌, ◌++◌, ◌≡◌, refl, ap₂, true, false, arith, All, All-map, elem,
  elem-All, leb, ◌==◌, if◌then◌else◌, Bool-cases, inl, inr,
}

insert_sorted : ℕ → List ℕ → List ℕ
insert_sorted a [] = a ∷ []
insert_sorted a (x ∷ xs) = let rest = insert_sorted a xs in if leb a x then a ∷ x ∷ xs else x ∷ rest

-- sort.Ints.
unfoldable pub sort_ints : List ℕ → List ℕ
unfolding insert_sorted
sort_ints [] = []
sort_ints (x ∷ xs) = insert_sorted x (sort_ints xs)

abbrev pub Sorted : List ℕ → Type 0
Sorted [] = Unit
Sorted (x ∷ xs) = All (λ y. x ≤ y) xs × Sorted xs

-- How often a number stands in a list.
abbrev pub count : ℕ → List ℕ → ℕ
count a [] = 0
count a (x ∷ xs) = let rest = count a xs in if x == a then suc rest else rest

pub count-append : (a : ℕ) (xs ys : List ℕ) → count a (xs ++ ys) ≡ count a xs + count a ys
count-append a [] ys = omega arith
count-append a (x ∷ xs) ys = ground (arith, count-append a xs ys)

count-insert_sorted : (a b : ℕ) (xs : List ℕ) → count a (insert_sorted b xs) ≡ count a (b ∷ xs)
unfolding insert_sorted
count-insert_sorted a b [] = refl
count-insert_sorted a b (x ∷ xs) = ground (arith, count-insert_sorted a b xs)

pub count-sort_ints : (a : ℕ) (xs : List ℕ) → count a (sort_ints xs) ≡ count a xs
unfolding sort_ints
count-sort_ints a [] = refl
count-sort_ints a (x ∷ xs) =
    ground (arith, count-insert_sorted a x (sort_ints xs), count-sort_ints a xs)

insert_sorted-All {κ} :
    (P : ℕ → Type κ) (a : ℕ) (xs : List ℕ) → P a → All P xs → All P (insert_sorted a xs)
unfolding insert_sorted
insert_sorted-All P a [] h _ = (h, tt)
insert_sorted-All P a (x ∷ xs) h (hx, hs) =
    elim (leb a x) as (λ b. All P (if b then a ∷ x ∷ xs else x ∷ insert_sorted a xs)) [
      | true ↦ (h, (hx, hs))
      | false ↦ (hx, insert_sorted-All P a xs h hs)
    ]

pub sort_ints-All {κ} : (P : ℕ → Type κ) (xs : List ℕ) → All P xs → All P (sort_ints xs)
unfolding sort_ints
sort_ints-All P [] _ = tt
sort_ints-All P (x ∷ xs) (hx, hs) = insert_sorted-All P x _ hx (sort_ints-All P xs hs)

insert_sorted-Sorted : (a : ℕ) (xs : List ℕ) → Sorted xs → Sorted (insert_sorted a xs)
unfolding insert_sorted
insert_sorted-Sorted a [] _ = (tt, tt)
insert_sorted-Sorted a (x ∷ xs) (low, s) = elim (Bool-cases (leb a x)) [
  | inl before ↦
      rw before
        (((ground arith), All-map (λ y. x ≤ y) (λ y. a ≤ y) (λ y h. ground arith) xs low), (low, s))
  | inr after ↦
      rw after (insert_sorted-All (λ y. x ≤ y) a xs (ground arith) low, insert_sorted-Sorted a xs s)
]

pub sort_ints-Sorted : (xs : List ℕ) → Sorted (sort_ints xs)
unfolding sort_ints
sort_ints-Sorted [] = tt
sort_ints-Sorted (x ∷ xs) = insert_sorted-Sorted x _ (sort_ints-Sorted xs)

pub elem-count : (a : ℕ) (xs : List ℕ) → (1 ≤ count a xs) → elem a xs ≡ true
elem-count a [] h = absurd (omega arith)
elem-count a (x ∷ xs) h = ground (arith, elem-count a xs)

-- What is in a sorted list is not below its head.
head-le : (x : ℕ) (xs : List ℕ) (a : ℕ) → Sorted (x ∷ xs) → 1 ≤ count a (x ∷ xs) → x ≤ a
head-le x xs a (low, _) h =
    elem-All (λ y. x ≤ y) a (x ∷ xs) (omega arith, low) (elem-count a (x ∷ xs) h)

count_self : (x : ℕ) (xs : List ℕ) → 1 ≤ count x (x ∷ xs)
count_self x xs = ground arith

-- Sorted lists that hold the same numbers as often are equal.
pub Sorted-unique :
    (xs ys : List ℕ) → Sorted xs → Sorted ys → ((a : ℕ) → count a xs ≡ count a ys) → xs ≡ ys
Sorted-unique [] [] _ _ _ = refl
Sorted-unique [] (y ∷ ys) _ _ same = absurd (omega (arith, same y, count_self y ys))
Sorted-unique (x ∷ xs) [] _ _ same = absurd (omega (arith, same x, count_self x xs))
Sorted-unique (x ∷ xs) (y ∷ ys) sx sy same =
    let x_le : y ≤ x = head-le y ys x sy (omega (arith, same x, count_self x xs)) in
    let y_le : x ≤ y = head-le x xs y sx (omega (arith, same y, count_self y ys)) in
    let e : x ≡ y = omega arith in
    ap₂ ◌∷◌ e (Sorted-unique xs ys sx.1 sy.1 (λ a. ground (arith, same a)))

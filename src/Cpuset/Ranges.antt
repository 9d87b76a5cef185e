-- ===== src/Cpuset/Ranges.antt =====
-- pkg/cpuset/cpuset.go: the runs of consecutive CPUs that String prints.
use micrun.Prelude.{
  ◌<◌, ℕ, zero, suc, ◌+◌, ◌-◌, ◌≤◌, List, [], ◌∷◌, ◌++◌, ◌≡◌, ◌≢◌, refl, ap, true, false, Bytes,
  arith, All, All-append, ==_iff, elem-append, ◌==◌, if◌then◌else◌, length, Bool-cases, inl, inr,
}
use micrun.Text.{
  itoa, is_space, join, split, max_int, has_byte, Lacks, Solid, split-join, split-append,
  split-Lacks, itoa-Solid, itoa-Lacks,
}
use micrun.Sorting.{sort_ints}
use native.Mathlib.Nat.{sub_self}
use micrun.Cpuset.{CpuSet, to_slice, is_empty}
use micrun.Cpuset.Print.{print_range, extend, ranges, print_slice, to_string}
use micrun.Cpuset.Parse.{upto, span}

pub has_dash : (s t : Bytes) → has_byte b'-' (s ++ (b'-' ∷ t)) ≡ true
has_dash s t = ground (arith, elem-append b'-' s (b'-' ∷ t))

pub dash-ne-nil : (s t : Bytes) → s ++ (b'-' ∷ t) ≢ []
dash-ne-nil [] t = λ e. cc
dash-ne-nil (c ∷ s) t = λ e. cc

pub split_dash : (lo hi : ℕ) → split b'-' (itoa lo ++ (b'-' ∷ itoa hi)) ≡ itoa lo ∷ itoa hi ∷ []
split_dash lo hi = rw (
  split-append b'-' (itoa lo) (itoa hi) (itoa-Lacks b'-' lo refl),
  split-Lacks b'-' (itoa hi) (itoa-Lacks b'-' hi refl),
)

pub span_self : (n : ℕ) → span n n ≡ n ∷ []
span_self n = let one : n + 1 - n ≡ 1 = omega arith in ap (λ (k : ℕ). upto k n) one

module _ {κ} (P : ℕ → Type κ) where
  print_range-All :
      (lo hi : ℕ) → P b'-' → All P (itoa lo) → All P (itoa hi) → All P (print_range lo hi)
  unfolding print_range
  print_range-All lo hi dash hlo hhi =
      elim (lo == hi) as (λ b. All P (if b then itoa lo else itoa lo ++ (b'-' ∷ itoa hi))) [
        | true ↦ hlo
        | false ↦ All-append P (itoa lo) (b'-' ∷ itoa hi) hlo (dash, hhi)
      ]

pub print_range-Solid : (lo hi : ℕ) → Solid (print_range lo hi)
print_range-Solid lo hi =
    print_range-All (λ c. is_space c ≡ false) lo hi refl (itoa-Solid lo) (itoa-Solid hi)

pub print_range-Lacks : (lo hi : ℕ) → Lacks b',' (print_range lo hi)
print_range-Lacks lo hi =
    print_range-All (λ c. c ≢ b',') lo hi (omega arith) (itoa-Lacks b',' lo refl)
      (itoa-Lacks b',' hi refl)

pub upto_cons :
    (n m i j : ℕ) (rest xs : List ℕ)
    → n ≡ suc m
    → j ≡ i
    → upto m (j + 1) ++ rest ≡ xs
    → upto n i ++ rest ≡ j ∷ xs
upto_cons n m i j rest xs len same h = rw (len, same) (ap (◌∷◌ i) (rw same at h))

-- A run and what stands behind it are the list that it was taken from.
pub extend-upto :
    (end : ℕ) (xs : List ℕ)
    → (end ≤ (extend end xs).0)
      × (upto ((extend end xs).0 - end) (end + 1) ++ (extend end xs).1 ≡ xs)
unfolding extend
extend-upto end [] = (omega arith, rw sub_self)
extend-upto end (x ∷ xs) = elim (Bool-cases (x == end + 1)) [
  | inl next ↦
      rw (next, extend)
        (let (le, whole) = extend-upto x xs in
          let e : x ≡ end + 1 = (==_iff x (end + 1)).0 next in
          (
            omega arith,
            upto_cons ((extend x xs).0 - end) ((extend x xs).0 - x) (end + 1) x (extend x xs).1 xs
                (omega arith) e whole,
          ))
  | inr gap ↦ rw (gap, extend) (omega arith, rw sub_self)
]

pub extend-All {κ} :
    (P : ℕ → Type κ) (end : ℕ) (xs : List ℕ)
    → P end
    → All P xs
    → P (extend end xs).0 × All P (extend end xs).1
unfolding extend
extend-All P end [] pe _ = (pe, tt)
extend-All P end (x ∷ xs) pe (px, h) = elim (Bool-cases (x == end + 1)) [
  | inl next ↦ rw (next, extend) (extend-All P x xs px h)
  | inr gap ↦ rw (gap, extend) (pe, (px, h))
]

pub length-extend : (end : ℕ) (xs : List ℕ) → length (extend end xs).1 ≤ length xs
unfolding extend
length-extend end [] = omega arith
length-extend end (x ∷ xs) = ground (arith, length-extend x xs)

-- The span of a run starts with its first CPU.
pub span_run :
    (start end : ℕ) → start ≤ end → span start end ≡ start ∷ upto (end - start) (start + 1)
span_run start end h =
    let e : end + 1 - start ≡ suc (end - start) = omega arith in
    ap (λ (k : ℕ). upto k start) {y = suc (end - start)} e

abbrev pub Below : List ℕ → Type 0
Below = All (λ n. n < max_int)

abbrev pub Fits : List ℕ → Type 0
Fits = All (λ n. n ≤ max_int)

pub print_slice-join : (xs : List ℕ) → print_slice xs ≡ join b',' (ranges (length xs) xs)
unfolding print_slice join
print_slice-join [] = refl
print_slice-join (x ∷ []) = ground arith
print_slice-join (x ∷ y ∷ xs) = refl

pub ranges-Lacks : (f : ℕ) (xs : List ℕ) → All (Lacks b',') (ranges f xs)
unfolding ranges
ranges-Lacks zero xs = tt
ranges-Lacks (suc f) [] = tt
ranges-Lacks (suc f) (x ∷ xs) =
    (print_range-Lacks x (extend x xs).0, ranges-Lacks f (extend x xs).1)

pub split-ranges :
    (x : ℕ) (xs : List ℕ)
    → split b',' (join b',' (ranges (length (x ∷ xs)) (x ∷ xs))) ≡ ranges (length (x ∷ xs)) (x ∷ xs)
unfolding ranges
split-ranges x xs = split-join b',' _ _ (ranges-Lacks (suc (length xs)) (x ∷ xs))

pub to_string-print_slice : (s : CpuSet) → to_string s ≡ print_slice (to_slice s)
unfolding to_string is_empty to_slice sort_ints
to_string-print_slice [] = refl
to_string-print_slice (c ∷ s) = ground arith

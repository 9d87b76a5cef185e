-- ===== src/Cpuset/Members.antt =====
-- pkg/cpuset/cpuset.go: which CPUs the results hold, and that no CPU is held twice.
use micrun.Prelude.{
  ℕ, suc, ◌≤◌, List, [], ◌∷◌, ◌++◌, ◌≡◌, ◌↔◌, refl, sym, ◌∙◌, inl, inr, Bool, true, false, ◌&&◌,
  ◌||◌, not, arith, elem, ◌==◌, if◌then◌else◌, length, Bool-cases,
}
use micrun.Cpuset.{
  CpuSet, put, put_all, new_cpu_set, contains, all_in, equals, union, select, intersection,
  difference,
}

-- No CPU stands twice: the list is the key list of a map.
abbrev pub Uniq : CpuSet → Type 0
Uniq [] = Unit
Uniq (c ∷ s) = (elem c s ≡ false) × Uniq s

pub elem-put : (x c : ℕ) (s : CpuSet) → elem x (put c s) ≡ (c == x || elem x s)
unfolding put
elem-put x c s = ground arith

pub elem-put_all :
    (x : ℕ) (cs : List ℕ) (s : CpuSet) → elem x (put_all cs s) ≡ (elem x cs || elem x s)
unfolding put_all
elem-put_all x [] s = refl
elem-put_all x (c ∷ cs) s = ground (arith, elem-put_all x cs (put c s), elem-put x c s)

elem-select :
    (x : ℕ) (p : ℕ → Bool) (cs : List ℕ) (s : CpuSet)
    → elem x (select p cs s) ≡ ((elem x cs && p x) || elem x s)
unfolding select
elem-select x p [] s = refl
elem-select x p (c ∷ cs) s =
    ground (arith, elem-select x p cs (put c s), elem-select x p cs s, elem-put x c s)

pub put_all-append :
    (xs ys : List ℕ) (s : CpuSet) → put_all (xs ++ ys) s ≡ put_all ys (put_all xs s)
unfolding put_all
put_all-append [] ys s = refl
put_all-append (x ∷ xs) ys s = put_all-append xs ys (put x s)

pub put-Uniq : (c : ℕ) (s : CpuSet) → Uniq s → Uniq (put c s)
unfolding put
put-Uniq c s u = elim (Bool-cases (elem c s)) [ inl old ↦ rw old u | inr new ↦ rw new (new, u) ]

pub put_all-Uniq : (cs : List ℕ) (s : CpuSet) → Uniq s → Uniq (put_all cs s)
unfolding put_all
put_all-Uniq [] s u = u
put_all-Uniq (c ∷ cs) s u = put_all-Uniq cs (put c s) (put-Uniq c s u)

select-Uniq : (p : ℕ → Bool) (cs : List ℕ) (s : CpuSet) → Uniq s → Uniq (select p cs s)
unfolding select
select-Uniq p [] s u = u
select-Uniq p (c ∷ cs) s u =
    select-Uniq p cs (if p c then put c s else s)
      (elim (p c) as (λ b. Uniq (if b then put c s else s)) [ true ↦ put-Uniq c s u | false ↦ u ])

-- Union, Intersection and Difference hold exactly the CPUs that their names promise.
pub contains-operations :
    (a b : CpuSet) (x : ℕ)
    → (contains (union a b) x ≡ (contains a x || contains b x))
      × (contains (intersection a b) x ≡ (contains a x && contains b x))
      × (contains (difference a b) x ≡ (contains a x && not (contains b x)))
unfolding union intersection difference
contains-operations a b x = (
  ground (arith, elem-put_all x b (put_all a []), elem-put_all x a []),
  ground (arith, elem-select x (contains b) a []),
  ground (arith, elem-select x (λ c. not (contains b c)) a []),
)

-- NewCPUSet, Union, Intersection and Difference never hold a CPU twice, so Size counts CPUs.
pub operations-Uniq :
    (cpus : List ℕ) (a b : CpuSet)
    → Uniq (new_cpu_set cpus) × Uniq (union a b) × Uniq (intersection a b) × Uniq (difference a b)
unfolding new_cpu_set union intersection difference
operations-Uniq cpus a b = (
  put_all-Uniq cpus [] tt,
  put_all-Uniq b _ (put_all-Uniq a [] tt),
  select-Uniq _ a [] tt,
  select-Uniq _ a [] tt,
)

-- The set without one CPU.
abbrev erase : ℕ → CpuSet → CpuSet
erase x [] = []
erase x (y ∷ ys) = let rest = erase x ys in if y == x then ys else y ∷ rest

length-erase : (x : ℕ) (ys : CpuSet) → elem x ys ≡ true → suc (length (erase x ys)) ≡ length ys
length-erase x [] h = cc
length-erase x (y ∷ ys) h = ground (arith, length-erase x ys)

elem-erase : (z x : ℕ) (ys : CpuSet) → Uniq ys → elem z (erase x ys) ≡ (elem z ys && not (x == z))
elem-erase z x [] u = refl
elem-erase z x (y ∷ ys) u = ground (arith, elem-erase z x ys u.1)

erase-Uniq : (x : ℕ) (ys : CpuSet) → Uniq ys → Uniq (erase x ys)
erase-Uniq x [] u = tt
erase-Uniq x (y ∷ ys) (new, u) = elim (Bool-cases (y == x)) [
  | inl same ↦ rw same u
  | inr other ↦ rw other ((ground (arith, elem-erase y x ys u)), erase-Uniq x ys u)
]

all_in-elem : (a b : CpuSet) (z : ℕ) → all_in a b ≡ true → elem z a ≡ true → elem z b ≡ true
unfolding all_in
all_in-elem [] b z h e = cc
all_in-elem (x ∷ xs) b z h e = ground (arith, all_in-elem xs b z)

all_in-erase :
    (a b : CpuSet) (x : ℕ)
    → Uniq b
    → elem x a ≡ false
    → all_in a b ≡ true
    → all_in a (erase x b) ≡ true
unfolding all_in
all_in-erase [] b x u n h = refl
all_in-erase (y ∷ ys) b x u n h = ground (arith, all_in-erase ys b x u, elem-erase y x b u)

-- A set inside another that is no larger holds all of it.
all_in_full :
    (a b : CpuSet) (z : ℕ)
    → Uniq a
    → Uniq b
    → all_in a b ≡ true
    → length b ≤ length a
    → elem z b ≡ true
    → elem z a ≡ true
unfolding all_in
all_in_full [] [] z ua ub h le e = e
all_in_full [] (y ∷ b) z ua ub h le e = absurd (omega arith)
all_in_full (x ∷ a) b z (new, ua) ub h le e = elim (Bool-cases (x == z)) [
  | inl same ↦ rw same
  | inr other ↦ rw other (
      all_in_full a (erase x b) z ua (erase-Uniq x b ub) (all_in-erase a b x ub new (ground arith))
        (omega (arith, length-erase x b (ground arith))) (ground (arith, elem-erase z x b ub)))
]

all_in-length : (a b : CpuSet) → Uniq a → all_in a b ≡ true → Uniq b → length a ≤ length b
unfolding all_in
all_in-length [] b _ _ _ = omega arith
all_in-length (x ∷ a) b (new, ua) h ub =
    let rest =
      all_in-length a (erase x b) ua (all_in-erase a b x ub new (ground arith))
        (erase-Uniq x b ub) in
    omega (arith, rest, length-erase x b (ground arith))

elem_head : (x : ℕ) (a : CpuSet) → elem x (x ∷ a) ≡ true
elem_head x a = ground arith

elem_tail : (x y : ℕ) (a : CpuSet) → elem y a ≡ true → elem y (x ∷ a) ≡ true
elem_tail x y a h = ground arith

all_in_of_elem : (a b : CpuSet) → ((x : ℕ) → elem x a ≡ true → elem x b ≡ true) → all_in a b ≡ true
unfolding all_in
all_in_of_elem [] b h = refl
all_in_of_elem (x ∷ a) b h =
    ground (arith, h x (elem_head x a), all_in_of_elem a b (λ y e. h y (elem_tail x y a e)))

both_ways : (p q : Bool) → (p ≡ true → q ≡ true) → (q ≡ true → p ≡ true) → p ≡ q
both_ways true q f g = sym (f refl)
both_ways false true f g = g refl
both_ways false false f g = refl

-- Equals answers true exactly when the two sets hold the same CPUs.
pub equals_iff :
    (a b : CpuSet) → Uniq a → Uniq b → (equals a b ≡ true) ↔ ((x : ℕ) → contains a x ≡ contains b x)
unfolding equals
equals_iff a b ua ub = (same, agree)
  where
    same : equals a b ≡ true → (x : ℕ) → contains a x ≡ contains b x
    same h x =
        both_ways (elem x a) (elem x b) (all_in-elem a b x (ground arith))
          (all_in_full a b x ua ub (ground arith) (ground arith))

    agree : ((x : ℕ) → contains a x ≡ contains b x) → equals a b ≡ true
    agree h =
        let ab : all_in a b ≡ true = all_in_of_elem a b (λ x e. sym (h x) ∙ e) in
        let ba : all_in b a ≡ true = all_in_of_elem b a (λ x e. h x ∙ e) in
        ground (arith, all_in-length a b ua ab ub, all_in-length b a ub ba ua)

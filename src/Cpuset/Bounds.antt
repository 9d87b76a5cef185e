-- ===== src/Cpuset/Bounds.antt =====
-- pkg/cpuset/cpuset.go: what Parse reads fits an int, whatever follows of the text.
use micrun.Cpuset.Parse.{
  Outcome, and_then, parse, parse_part, parse_parts, parse_range, parse_single, parse_ends,
  read_cpu, span, start_after_end, endless,
}
use micrun.Cpuset.Ranges.{Fits}
use micrun.Cpuset.{CpuSet, put, put_all, union}
use micrun.Text.{has_byte, split, trim_space, atoi, atoi-le, max_int}
use micrun.Mica.CpuString.Range.{span-Fits}
use micrun.Prelude.{
  some_eq, All, Bool, Bool-cases, Bytes, List, Option, [], elem, false, if◌then◌else◌, inl, inr,
  ltb, negsuc, none, pos, some, true, ℕ, ℤ, ◌∷◌, ◌≤◌, ◌≡◌, refl,
}

pub put-All {κ} : (P : ℕ → Type κ) (c : ℕ) (s : CpuSet) → P c → All P s → All P (put c s)
unfolding put
put-All P c s p h = elim (Bool-cases (elem c s)) [ inl old ↦ rw old h | inr new ↦ rw new (p, h) ]

pub put_all-All {κ} :
    (P : ℕ → Type κ) (cs : List ℕ) (s : CpuSet) → All P cs → All P s → All P (put_all cs s)
unfolding put_all
put_all-All P [] s hc h = h
put_all-All P (c ∷ cs) s (p, hc) h = put_all-All P cs (put c s) hc (put-All P c s p h)

pub union-All {κ} : (P : ℕ → Type κ) (a b : CpuSet) → All P a → All P b → All P (union a b)
unfolding union
union-All P a b ha hb = put_all-All P b (put_all a []) hb (put_all-All P a [] ha tt)

abbrev number_of : Option ℤ → Option ℕ
number_of none = none
number_of (some (pos n)) = some n
number_of (some (negsuc n)) = none

read_cpu-le : (s : Bytes) (n : ℕ) → read_cpu s ≡ some n → n ≤ max_int
unfolding read_cpu
read_cpu-le s n e = go (atoi s) refl e
  where
    go :
        (v : Option ℤ)
        → atoi s ≡ v
        → (elim v [ none ↦ none | some (pos m) ↦ some m | some (negsuc m) ↦ none ]) ≡ some n
        → n ≤ max_int
    go none e' h = cc
    go (some (pos m)) e' h = let same : m ≡ n = some_eq h in rw (← same) (atoi-le s m e')
    go (some (negsuc m)) e' h = cc

if_outcome-Fits : (b : Bool) (o o' : Outcome) → Fits o.0 → Fits o'.0 → Fits (if b then o else o').0
if_outcome-Fits true o o' h h' = h
if_outcome-Fits false o o' h h' = h'

parse_ends-Fits :
    (a b : Option ℕ) (set : CpuSet)
    → ((n : ℕ) → a ≡ some n → n ≤ max_int)
    → ((n : ℕ) → b ≡ some n → n ≤ max_int)
    → Fits set
    → Fits (parse_ends a b set).0
unfolding parse_ends
parse_ends-Fits none b set ha hb h = h
parse_ends-Fits (some lo) none set ha hb h = h
parse_ends-Fits (some lo) (some hi) set ha hb h =
    if_outcome-Fits (ltb hi lo) (set, some start_after_end) _ h
      (if_outcome-Fits (ltb hi max_int) (put_all (span lo hi) set, none) (set, some endless)
        (put_all-All (λ n. n ≤ max_int) (span lo hi) set (span-Fits lo hi (ha lo refl) (hb hi refl))
          h)
        h)

parse_range-Fits : (parts : List Bytes) (set : CpuSet) → Fits set → Fits (parse_range parts set).0
unfolding parse_range
parse_range-Fits [] set h = h
parse_range-Fits (lo ∷ []) set h = h
parse_range-Fits (lo ∷ hi ∷ []) set h =
    parse_ends-Fits (read_cpu (trim_space lo)) (read_cpu (trim_space hi)) set
      (read_cpu-le (trim_space lo)) (read_cpu-le (trim_space hi)) h
parse_range-Fits (lo ∷ hi ∷ x ∷ xs) set h = h

parse_single-Fits :
    (o : Option ℕ) (set : CpuSet)
    → ((n : ℕ) → o ≡ some n → n ≤ max_int)
    → Fits set
    → Fits (parse_single o set).0
unfolding parse_single
parse_single-Fits none set ho h = h
parse_single-Fits (some n) set ho h = put-All (λ m. m ≤ max_int) n set (ho n refl) h

parse_part-Fits : (part : Bytes) (set : CpuSet) → Fits set → Fits (parse_part part set).0
unfolding parse_part
parse_part-Fits [] set h = h
parse_part-Fits (c ∷ part) set h =
    if_outcome-Fits (has_byte b'-' (c ∷ part)) _ _ (parse_range-Fits (split b'-' (c ∷ part)) set h)
      (parse_single-Fits (read_cpu (c ∷ part)) set (read_cpu-le (c ∷ part)) h)

and_then-Fits :
    (o : Outcome) (rest : CpuSet → Outcome)
    → Fits o.0
    → ((set : CpuSet) → Fits set → Fits (rest set).0)
    → Fits (and_then o rest).0
and_then-Fits (set, none) rest h step = step set h
and_then-Fits (set, some e) rest h step = h

parse_parts-Fits : (parts : List Bytes) (set : CpuSet) → Fits set → Fits (parse_parts parts set).0
unfolding parse_parts
parse_parts-Fits [] set h = h
parse_parts-Fits (part ∷ parts) set h =
    and_then-Fits (parse_part (trim_space part) set) (parse_parts parts)
      (parse_part-Fits (trim_space part) set h) (parse_parts-Fits parts)

pub parse-Fits : (s : Bytes) → Fits (parse s).0
unfolding parse
parse-Fits [] = tt
parse-Fits (c ∷ s) = parse_parts-Fits (split b',' (c ∷ s)) [] tt

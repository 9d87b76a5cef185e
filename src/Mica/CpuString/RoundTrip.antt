-- ===== src/Mica/CpuString/RoundTrip.antt =====
-- pkg/libmica/utils.go against pkg/pedestal/parser.go: ParseCPUString reads back what ParseCPUArr
-- prints.
use micrun.Prelude.{
  ◌<◌, ◌&&◌, ℕ, zero, suc, ◌+◌, ◌-◌, ◌≤◌, List, [], ◌∷◌, ◌++◌, ◌≡◌, refl, sym, ◌∙◌, ap, true, some,
  Bytes, arith, ◌==◌, ==_iff, if◌then◌else◌, length, Bool-cases, inl, inr, ◌≢◌, none,
}
use micrun.Text.{
  atoi, split, has_byte, itoa, join, max_int, trim_space-Solid, itoa-Solid, atoi-itoa, itoa-Lacks,
  has_byte-Lacks, itoa-ne-nil,
}
use micrun.Sorting.{sort_ints, sort_ints-All}
use micrun.Cpuset.Parse.{span, upto}
use micrun.Cpuset.Print.{print_range, extend, ranges}
use micrun.Cpuset.Ranges.{
  Below, has_dash, dash-ne-nil, split_dash, span_self, print_range-Solid, extend-upto, extend-All,
  length-extend, span_run, print_slice-join, split-ranges,
}
use micrun.Pedestal.CpuArray.{parse_cpu_arr, bubble_sort, write_sorted}
use micrun.Pedestal.CpuArray.Sorting.{bubble_sort-eq-sort_ints}
use micrun.Pedestal.CpuArray.Agreement.{print_slice-eq-write_sorted}
use micrun.Mica.CpuString.{
  valid_ends, valid_range, is_number, is_valid_group, are_valid_groups, is_valid_cpu_string,
  atoi_value, expand_range, expand, expand_groups, range_ends, group_ends, groups_end,
  parse_cpu_string,
}

atoi_value-itoa : (n : ℕ) → n ≤ max_int → atoi_value (itoa n) ≡ n
unfolding atoi_value
atoi_value-itoa n h = rw (atoi-itoa n h, atoi_value)

is_valid_group-cons :
    (s : Bytes)
    → s ≢ []
    → is_valid_group s
      ≡ (if has_byte b'-' s then valid_range (split b'-' s) else is_number (atoi s))
unfolding is_valid_group
is_valid_group-cons [] h = absurd (h refl)
is_valid_group-cons (c ∷ s) h = refl

dash_valid :
    (lo hi : ℕ) → lo ≤ hi → hi ≤ max_int → is_valid_group (itoa lo ++ (b'-' ∷ itoa hi)) ≡ true
unfolding valid_range valid_ends
dash_valid lo hi le h =
    rw
      (
        is_valid_group-cons _ (dash-ne-nil (itoa lo) (itoa hi)),
        has_dash (itoa lo) (itoa hi),
        split_dash lo hi,
      )
      (rw
        (
          trim_space-Solid (itoa lo) (itoa-Solid lo),
          trim_space-Solid (itoa hi) (itoa-Solid hi),
          atoi-itoa lo (omega arith),
          atoi-itoa hi h,
        )
        (ground arith))

dash_ends : (lo hi : ℕ) → lo ≤ hi → hi < max_int → group_ends (itoa lo ++ (b'-' ∷ itoa hi)) ≡ true
unfolding group_ends range_ends
dash_ends lo hi le h =
    rw (has_dash (itoa lo) (itoa hi), split_dash lo hi)
      (rw (trim_space-Solid (itoa hi) (itoa-Solid hi))
        (ground (arith, atoi_value-itoa hi (omega arith))))

itoa_ends : (n : ℕ) → group_ends (itoa n) ≡ true
unfolding group_ends
itoa_ends n = rw (has_byte-Lacks b'-' (itoa n) (itoa-Lacks b'-' n refl)) refl

dash_expand :
    (lo hi : ℕ) → lo ≤ hi → hi ≤ max_int → expand (itoa lo ++ (b'-' ∷ itoa hi)) ≡ span lo hi
unfolding expand expand_range
dash_expand lo hi le h =
    rw (has_dash (itoa lo) (itoa hi), split_dash lo hi)
      (rw (trim_space-Solid (itoa lo) (itoa-Solid lo), trim_space-Solid (itoa hi) (itoa-Solid hi))
        (ground (arith, atoi_value-itoa lo (omega arith), atoi_value-itoa hi h)))

itoa_valid : (n : ℕ) → n ≤ max_int → is_valid_group (itoa n) ≡ true
itoa_valid n h = rw (
  is_valid_group-cons (itoa n) (itoa-ne-nil n),
  has_byte-Lacks b'-' (itoa n) (itoa-Lacks b'-' n refl),
  atoi-itoa n h,
)

expand-itoa : (n : ℕ) → n ≤ max_int → expand (itoa n) ≡ n ∷ []
unfolding expand
expand-itoa n h =
    rw (has_byte-Lacks b'-' (itoa n) (itoa-Lacks b'-' n refl)) (rw (atoi_value-itoa n h))

-- What is printed for a range is a valid group and stands for the range.
print_range-expand :
    (lo hi : ℕ)
    → lo ≤ hi
    → hi < max_int
    → (is_valid_group (print_range lo hi) ≡ true)
      × (group_ends (print_range lo hi) ≡ true)
      × (expand (print_range lo hi) ≡ span lo hi)
unfolding print_range
print_range-expand lo hi le h = elim (Bool-cases (lo == hi)) [
  | inl same ↦ rw same (
    itoa_valid lo (omega arith),
    itoa_ends lo,
    rw (← (==_iff lo hi).0 same) (expand-itoa lo (omega arith) ∙ sym (span_self lo)),
  )
  | inr other ↦
      rw other (
        dash_valid lo hi le (omega arith),
        dash_ends lo hi le h,
        dash_expand lo hi le (omega arith),
      )
]

run_whole :
    (x end : ℕ) (rest xs : List ℕ)
    → x ≤ end
    → upto (end - x) (x + 1) ++ rest ≡ xs
    → span x end ++ rest ≡ x ∷ xs
run_whole x end rest xs le whole = ap (λ l. l ++ rest) (span_run x end le) ∙ ap (◌∷◌ x) whole

ranges-expand :
    (f : ℕ) (xs : List ℕ)
    → length xs ≤ f
    → Below xs
    → (are_valid_groups (ranges f xs) ≡ true)
      × (groups_end (ranges f xs) ≡ true)
      × (expand_groups (ranges f xs) ≡ xs)
unfolding ranges are_valid_groups expand_groups groups_end
ranges-expand zero [] h fits = (refl, refl, refl)
ranges-expand zero (x ∷ xs) h fits = absurd (omega arith)
ranges-expand (suc f) [] h fits = (refl, refl, refl)
ranges-expand (suc f) (x ∷ xs) h (hx, fits) =
    let (le, whole) = extend-upto x xs in
    let (last, others) = extend-All (λ n. n < max_int) x xs hx fits in
    let (valid, ends, items) = print_range-expand x (extend x xs).0 le last in
    let (rest_valid, rest_ends, rest) =
      ranges-expand f (extend x xs).1 (omega (arith, length-extend x xs)) others in
    (
      rw (trim_space-Solid _ (print_range-Solid x (extend x xs).0), valid) rest_valid,
      rw (trim_space-Solid _ (print_range-Solid x (extend x xs).0), ends) rest_ends,
      rw (trim_space-Solid _ (print_range-Solid x (extend x xs).0), items, rest)
          (run_whole x (extend x xs).0 (extend x xs).1 xs le whole),
    )

append-ne-nil : (s t : Bytes) → s ≢ [] → s ++ t ≢ []
append-ne-nil [] t h = λ _. h refl
append-ne-nil (c ∷ s) t h = λ e. cc

join-ne-nil : (p : Bytes) (ps : List Bytes) → p ≢ [] → join b',' (p ∷ ps) ≢ []
unfolding join
join-ne-nil p [] h = h
join-ne-nil p (q ∷ ps) h = append-ne-nil p _ h

print_range-ne-nil : (lo hi : ℕ) → print_range lo hi ≢ []
unfolding print_range
print_range-ne-nil lo hi = ground (arith, itoa-ne-nil lo, dash-ne-nil (itoa lo) (itoa hi))

parse_cpu_string-cons :
    (s : Bytes)
    → s ≢ []
    → parse_cpu_string s ≡ (
        if are_valid_groups (split b',' s) && groups_end (split b',' s)
        then some (expand_groups (split b',' s))
        else none)
unfolding parse_cpu_string is_valid_cpu_string
parse_cpu_string-cons [] h = absurd (h refl)
parse_cpu_string-cons (c ∷ s) h = refl

ranges-ne-nil : (x : ℕ) (xs : List ℕ) → join b',' (ranges (length (x ∷ xs)) (x ∷ xs)) ≢ []
unfolding ranges
ranges-ne-nil x xs = join-ne-nil _ _ (print_range-ne-nil x (extend x xs).0)

parse_cpu_string-join :
    (xs : List ℕ) → Below xs → parse_cpu_string (join b',' (ranges (length xs) xs)) ≡ some xs
parse_cpu_string-join [] fits = unfold parse_cpu_string join ranges in refl
parse_cpu_string-join (x ∷ xs) fits =
    let (valid, ends, items) = ranges-expand (suc (length xs)) (x ∷ xs) (omega arith) fits in
    parse_cpu_string-cons _ (ranges-ne-nil x xs) ∙ rw (split-ranges x xs) (rw (valid, ends, items))

-- ParseCPUString of what ParseCPUArr prints gives the CPUs of the array in sorted order, repeated
-- ones included, if each of them is below the largest int.
pub parse_cpu_string-parse_cpu_arr :
    (cpus : List ℕ) → Below cpus → parse_cpu_string (parse_cpu_arr cpus) ≡ some (sort_ints cpus)
unfolding parse_cpu_arr
parse_cpu_string-parse_cpu_arr cpus fits =
    let printed : write_sorted (bubble_sort cpus) ≡ join b',' (ranges _ (sort_ints cpus)) =
      ap write_sorted (bubble_sort-eq-sort_ints cpus)
      ∙ (sym (print_slice-eq-write_sorted (sort_ints cpus)) ∙ print_slice-join (sort_ints cpus)) in
    ap parse_cpu_string printed
    ∙ parse_cpu_string-join (sort_ints cpus) (sort_ints-All (λ n. n < max_int) cpus fits)

-- ===== src/Cpuset/RoundTrip.antt =====
-- pkg/cpuset/cpuset.go: Parse reads back what String prints.
use micrun.Prelude.{
  ◌<◌, ℕ, zero, suc, ◌+◌, ◌-◌, ◌≤◌, List, [], ◌∷◌, ◌++◌, ◌≡◌, ◌≢◌, refl, sym, ◌∙◌, ap, none, some,
  Bytes, arith, ==_iff, ◌==◌, if◌then◌else◌, length, Bool-cases, inl, inr,
}
use micrun.Text.{
  itoa, join, split, max_int, trim_space, has_byte, split-append, split-Lacks, trim_space-Solid,
  itoa-Solid, itoa-Lacks, itoa-ne-nil, atoi-itoa, has_byte-Lacks,
}
use micrun.Cpuset.{CpuSet, contains, put, put_all, to_slice}
use micrun.Cpuset.Members.{put_all-append, Uniq, elem-put_all}
use micrun.Cpuset.Slice.{to_slice_lem, to_slice-All}
use micrun.Cpuset.Print.{print_range, extend, ranges, to_string}
use micrun.Cpuset.Parse.{
  upto, span, read_cpu, parse_ends, parse_range, parse_single, parse_part, parse_parts, parse,
}
use micrun.Cpuset.Ranges.{
  has_dash, dash-ne-nil, span_self, print_range-Solid, extend-upto, extend-All, length-extend,
  span_run, Below, print_slice-join, split-ranges, to_string-print_slice,
}

-- A printed CPU is read back.
pub read_cpu-itoa : (n : ℕ) → n ≤ max_int → read_cpu (itoa n) ≡ some n
unfolding read_cpu
read_cpu-itoa n h = rw (atoi-itoa n h, read_cpu)

parse_part-cons :
    (s : Bytes) (set : CpuSet)
    → s ≢ []
    → parse_part s set
      ≡ (if has_byte b'-' s then parse_range (split b'-' s) set else parse_single (read_cpu s) set)
unfolding parse_part
parse_part-cons [] set h = absurd (h refl)
parse_part-cons (c ∷ s) set h = refl

parse_part-itoa : (n : ℕ) (set : CpuSet) → n ≤ max_int → parse_part (itoa n) set ≡ (put n set, none)
unfolding parse_single
parse_part-itoa n set h = rw (
  parse_part-cons (itoa n) set (itoa-ne-nil n),
  has_byte-Lacks b'-' (itoa n) (itoa-Lacks b'-' n refl),
  read_cpu-itoa n h,
)

parse_part-dash :
    (lo hi : ℕ) (set : CpuSet)
    → lo ≤ hi
    → hi < max_int
    → parse_part (itoa lo ++ (b'-' ∷ itoa hi)) set ≡ (put_all (span lo hi) set, none)
unfolding parse_range parse_ends
parse_part-dash lo hi set le h =
    rw
      (
        parse_part-cons (itoa lo ++ (b'-' ∷ itoa hi)) set (dash-ne-nil (itoa lo) (itoa hi)),
        has_dash (itoa lo) (itoa hi),
        split-append b'-' (itoa lo) (itoa hi) (itoa-Lacks b'-' lo refl),
        split-Lacks b'-' (itoa hi) (itoa-Lacks b'-' hi refl),
      )
      (rw
        (
          trim_space-Solid (itoa lo) (itoa-Solid lo),
          trim_space-Solid (itoa hi) (itoa-Solid hi),
          read_cpu-itoa lo (omega arith),
          read_cpu-itoa hi (omega arith),
        )
        (ground arith))

parse_part-print_range :
    (lo hi : ℕ) (set : CpuSet)
    → lo ≤ hi
    → hi < max_int
    → parse_part (print_range lo hi) set ≡ (put_all (span lo hi) set, none)
unfolding print_range put_all
parse_part-print_range lo hi set le h = elim (Bool-cases (lo == hi)) [
  | inl same ↦
      rw same (
        rw (← (==_iff lo hi).0 same) (rw (parse_part-itoa lo set (omega arith), span_self lo) refl))
  | inr other ↦ rw other (parse_part-dash lo hi set le h)
]

put_run :
    (x end : ℕ) (rest xs : List ℕ) (set : CpuSet)
    → x ≤ end
    → upto (end - x) (x + 1) ++ rest ≡ xs
    → put_all rest (put_all (span x end) set) ≡ put_all (x ∷ xs) set
put_run x end rest xs set le whole =
    sym (put_all-append (span x end) rest set)
    ∙ ap (λ l. put_all l set) (ap (λ l. l ++ rest) (span_run x end le) ∙ ap (◌∷◌ x) whole)

parse_parts-ranges :
    (f : ℕ) (xs : List ℕ) (set : CpuSet)
    → length xs ≤ f
    → Below xs
    → parse_parts (ranges f xs) set ≡ (put_all xs set, none)
unfolding ranges parse_parts
parse_parts-ranges zero [] set h fits = unfold put_all in refl
parse_parts-ranges zero (x ∷ xs) set h fits = absurd (omega arith)
parse_parts-ranges (suc f) [] set h fits = unfold put_all in refl
parse_parts-ranges (suc f) (x ∷ xs) set h (hx, fits) =
    let (le, whole) = extend-upto x xs in
    let (last, others) = extend-All (λ n. n < max_int) x xs hx fits in
    rw
      (
        trim_space-Solid _ (print_range-Solid x (extend x xs).0),
        parse_part-print_range x (extend x xs).0 set le last,
      )
      (parse_parts-ranges f (extend x xs).1 _ (omega (arith, length-extend x xs)) others
        ∙ ap (λ s. (s, none)) (put_run x (extend x xs).0 (extend x xs).1 xs set le whole))

-- An empty text has one empty part, which is skipped.
pub parse-parse_parts : (s : Bytes) → parse s ≡ parse_parts (split b',' s) []
unfolding parse split trim_space
parse-parse_parts [] = refl
parse-parse_parts (c ∷ s) = refl

parse-join :
    (xs : List ℕ) → Below xs → parse (join b',' (ranges (length xs) xs)) ≡ (put_all xs [], none)
parse-join [] fits = unfold parse ranges join put_all in refl
parse-join (x ∷ xs) fits =
    parse-parse_parts _
    ∙ (ap (λ ps. parse_parts ps []) (split-ranges x xs)
        ∙ parse_parts-ranges (suc (length xs)) (x ∷ xs) [] (omega arith) fits)

-- For a set that lists each CPU once, and each of them below the largest int: Parse of String gives no
-- error and a set of the same CPUs.
pub parse-to_string :
    (s : CpuSet)
    → Uniq s
    → Below s
    → ((parse (to_string s)).1 ≡ none)
      × ((x : ℕ) → contains (parse (to_string s)).0 x ≡ contains s x)
parse-to_string s u fits =
    let e : parse (to_string s) ≡ (put_all (to_slice s) [], none) =
      ap parse (to_string-print_slice s ∙ print_slice-join (to_slice s))
      ∙ parse-join (to_slice s) (to_slice-All (λ n. n < max_int) s fits) in
    (
      ap (λ r. r.1) e,
      λ x.
          ap (λ r. contains r.0 x) e
          ∙ ground (arith, elem-put_all x (to_slice s) [], (to_slice_lem s u).1 x),
    )

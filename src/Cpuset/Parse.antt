-- ===== src/Cpuset/Parse.antt =====
-- pkg/cpuset/cpuset.go: Parse. Like the code it returns the set built so far beside the error. A range
-- that ends at the largest `int` is a loop without an end, since i++ wraps around: Parse does not return
-- then, which `endless` stands for beside the errors of the code.
use micrun.Prelude.{
  ℕ, zero, suc, ◌+◌, ◌-◌, List, [], ◌∷◌, Option, none, some, Bytes, ltb, if◌then◌else◌, pos, negsuc,
}
use micrun.Text.{max_int, atoi, split, trim_space, has_byte}
use micrun.Cpuset.{CpuSet, put, put_all}

pub data ParseError : Type 0 where
  invalid_range invalid_start invalid_end start_after_end invalid_number endless : ParseError

-- The numbers from `i` on, `n` of them.
abbrev pub upto : ℕ → ℕ → List ℕ
upto zero i = []
upto (suc n) i = i ∷ upto n (i + 1)

-- for i := start; i <= end; i++, for an end below the largest int
abbrev pub span : ℕ → ℕ → List ℕ
span start end = upto (end + 1 - start) start

-- Atoi on a text that has no minus sign (Text.atoi-nonneg), so the last case is never met.
unfoldable pub read_cpu : Bytes → Option ℕ
read_cpu s = elim (atoi s) [ none ↦ none | some (pos n) ↦ some n | some (negsuc n) ↦ none ]

abbrev pub Outcome : Type 0
Outcome = CpuSet × Option ParseError

-- The branch for a range, once its ends are read.
unfoldable pub parse_ends : Option ℕ → Option ℕ → CpuSet → Outcome
parse_ends none last set = (set, some invalid_start)
parse_ends (some start) none set = (set, some invalid_end)
parse_ends (some start) (some end) set =
    if ltb end start
    then (set, some start_after_end)
    else if ltb end max_int
    then (put_all (span start end) set, none)
    else (set, some endless)

-- The branch for a range, cut at its dashes.
unfoldable pub parse_range : List Bytes → CpuSet → Outcome
unfolding parse_ends
parse_range (lo ∷ hi ∷ []) set =
    parse_ends (read_cpu (trim_space lo)) (read_cpu (trim_space hi)) set
parse_range _ set = (set, some invalid_range)

-- The branch for one CPU.
unfoldable pub parse_single : Option ℕ → CpuSet → Outcome
parse_single none set = (set, some invalid_number)
parse_single (some cpu) set = (put cpu set, none)

-- One round of the loop, on a trimmed part; an empty part is skipped.
unfoldable pub parse_part : Bytes → CpuSet → Outcome
unfolding parse_range parse_single
parse_part [] set = (set, none)
parse_part (c ∷ part) set =
    if has_byte b'-' (c ∷ part)
    then parse_range (split b'-' (c ∷ part)) set
    else parse_single (read_cpu (c ∷ part)) set

-- The first error ends the loop.
abbrev pub and_then : Outcome → (CpuSet → Outcome) → Outcome
and_then (set, none) rest = rest set
and_then (set, some e) rest = (set, some e)

unfoldable pub parse_parts : List Bytes → CpuSet → Outcome
parse_parts [] set = (set, none)
parse_parts (part ∷ parts) set = and_then (parse_part (trim_space part) set) (parse_parts parts)

-- Parse
unfoldable pub parse : Bytes → Outcome
unfolding parse_parts parse_part
parse [] = ([], none)
parse (c ∷ s) = parse_parts (split b',' (c ∷ s)) []

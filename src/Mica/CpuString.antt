-- ===== src/Mica/CpuString.antt =====
-- pkg/libmica/utils.go: isValidCPUString and ParseCPUString.
use micrun.Prelude.{
  ℕ, List, [], ◌∷◌, ◌++◌, Bool, true, false, ◌&&◌, Option, none, some, Bytes, leb, ltb,
  if◌then◌else◌, ℤ, pos, negsuc,
}
use micrun.Text.{max_int, atoi, split, trim_space, has_byte}
use micrun.Cpuset.Parse.{span}
pub mod Agreement
pub mod RoundTrip
pub mod Range

-- The test on the two ends of a range: both are numbers, neither is negative, and they are in order.
unfoldable pub valid_ends : Option ℤ → Option ℤ → Bool
valid_ends (some (pos start)) (some (pos end)) = leb start end
valid_ends _ _ = false

unfoldable pub valid_range : List Bytes → Bool
unfolding valid_ends
valid_range (lo ∷ hi ∷ []) = valid_ends (atoi (trim_space lo)) (atoi (trim_space hi))
valid_range _ = false

abbrev pub is_number : Option ℤ → Bool
is_number none = false
is_number (some _) = true

-- One round of the loop, on a trimmed group.
unfoldable pub is_valid_group : Bytes → Bool
unfolding valid_range
is_valid_group [] = false
is_valid_group (c ∷ g) =
    if has_byte b'-' (c ∷ g) then valid_range (split b'-' (c ∷ g)) else is_number (atoi (c ∷ g))

unfoldable pub are_valid_groups : List Bytes → Bool
are_valid_groups [] = true
are_valid_groups (g ∷ gs) = is_valid_group (trim_space g) && are_valid_groups gs

-- isValidCPUString
unfoldable pub is_valid_cpu_string : Bytes → Bool
unfolding are_valid_groups is_valid_group
is_valid_cpu_string [] = true
is_valid_cpu_string (c ∷ s) = are_valid_groups (split b',' (c ∷ s))

-- start, _ := strconv.Atoi(...): 0 beside an error, which the validation rules out, as it does a
-- negative number.
unfoldable pub atoi_value : Bytes → ℕ
atoi_value s = elim (atoi s) [ none ↦ 0 | some (pos n) ↦ n | some (negsuc n) ↦ 0 ]

-- Whether the loop over a range ends: i <= end holds for every int if `end` is the largest one.
unfoldable pub range_ends : List Bytes → Bool
unfolding atoi_value
range_ends (lo ∷ hi ∷ _) = ltb (atoi_value (trim_space hi)) max_int
range_ends _ = true

unfoldable pub group_ends : Bytes → Bool
unfolding range_ends
group_ends group = if has_byte b'-' group then range_ends (split b'-' group) else true

unfoldable pub groups_end : List Bytes → Bool
groups_end [] = true
groups_end (g ∷ gs) = group_ends (trim_space g) && groups_end gs

abbrev loops_end : Bytes → Bool
loops_end [] = true
loops_end (c ∷ s) = groups_end (split b',' (c ∷ s))

-- The loop over a range, if it ends. The validation has seen two parts.
unfoldable pub expand_range : List Bytes → List ℕ
unfolding atoi_value
expand_range (lo ∷ hi ∷ _) = span (atoi_value (trim_space lo)) (atoi_value (trim_space hi))
expand_range _ = []

-- What one trimmed group appends.
unfoldable pub expand : Bytes → List ℕ
unfolding expand_range
expand group =
    if has_byte b'-' group then expand_range (split b'-' group) else atoi_value group ∷ []

unfoldable pub expand_groups : List Bytes → List ℕ
expand_groups [] = []
expand_groups (g ∷ gs) = expand (trim_space g) ++ expand_groups gs

abbrev expand_string : Bytes → List ℕ
expand_string [] = []
expand_string (c ∷ s) = expand_groups (split b',' (c ∷ s))

-- ParseCPUString; `none` stands for no result, by an error or since a loop does not end.
unfoldable pub parse_cpu_string : Bytes → Option (List ℕ)
unfolding is_valid_cpu_string expand_groups expand groups_end group_ends
parse_cpu_string s = if is_valid_cpu_string s && loops_end s then some (expand_string s) else none

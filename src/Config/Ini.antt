-- ===== src/Config/Ini.antt =====
-- pkg/utils/parser.go: ParseINI and stripQuotes, over the lines that the scanner gives. An error of the
-- scanner is an error of the parser, whatever was read before it.
use micrun.Prelude.{
  not, ℕ, List, [], ◌∷◌, Bool, true, false, ◌&&◌, ◌||◌, ◌==◌, Option, none, some, Bytes,
  if◌then◌else◌,
}
use micrun.Text.{trim_space}
use micrun.Keyed.{insert}
use micrun.Mica.Update.{lower}
use micrun.Container.Making.{in_list}
pub mod Sections

abbrev pub last_byte : ℕ → Bytes → ℕ
last_byte c [] = c
last_byte c (d ∷ s) = last_byte d s

abbrev pub without_last : Bytes → Bytes
without_last [] = []
without_last (c ∷ []) = []
without_last (c ∷ d ∷ s) = c ∷ without_last (d ∷ s)

abbrev pub quoted_by : ℕ → ℕ → Bytes → Bool
quoted_by quote c s = c == quote && last_byte c s == quote

-- stripQuotes; 34 and 39 are the two quotes.
unfoldable pub strip_quotes : Bytes → Bytes
strip_quotes [] = []
strip_quotes (c ∷ []) = c ∷ []
strip_quotes (c ∷ d ∷ s) =
    if quoted_by 34 c (d ∷ s) || quoted_by 39 c (d ∷ s) then without_last (d ∷ s) else c ∷ d ∷ s

abbrev pub in_front : ℕ → Option (Bytes × Bytes) → Option (Bytes × Bytes)
in_front c none = none
in_front c (some (key, value)) = some (c ∷ key, value)

-- The line in front of the first `sep` and behind it.
unfoldable pub cut : ℕ → Bytes → Option (Bytes × Bytes)
cut sep [] = none
cut sep (c ∷ s) = let rest = cut sep s in if c == sep then some ([], s) else in_front c rest

abbrev pub or_cut : Option (Bytes × Bytes) → Bytes → Option (Bytes × Bytes)
or_cut (some parts) line = some parts
or_cut none line = cut b':' line

-- The key and the value of a line.
unfoldable pub separated : Bytes → Option (Bytes × Bytes)
unfolding cut
separated line = or_cut (cut b'=' line) line

abbrev pub is_comment : Bytes → Bool
is_comment [] = true
is_comment (c ∷ s) = c == b'#' || c == b';'

abbrev pub is_header : Bytes → Bool
is_header [] = false
is_header (c ∷ s) = c == b'[' && last_byte c s == b']'

-- strings.ToLower(line[1 : len(line)-1])
abbrev pub section_name : Bytes → Bytes
section_name [] = []
section_name (c ∷ s) = lower (without_last s)

-- The white list; `none` is nil, which allows every section.
abbrev pub allows : Option (List Bytes) → Bytes → Bool
allows none name = true
allows (some names) name = in_list names name

abbrev pub enter : Option (Bytes × Bytes) → List (Bytes × Bytes) → List (Bytes × Bytes)
enter none fields = fields
enter (some (key, value)) fields =
    insert (lower (trim_space key)) (strip_quotes (trim_space value)) fields

-- Whether the section is allowed, and the fields so far.
abbrev pub Reading : Type 0
Reading = Bool × List (Bytes × Bytes)

-- A line that has been trimmed.
unfoldable pub read_line : Option (List Bytes) → Bytes → Reading → Reading
unfolding strip_quotes separated insert in_list
read_line names line (allowed, fields) =
    if is_comment line
    then (allowed, fields)
    else if is_header line
    then (allows names (section_name line), fields)
    else if not allowed
    then (allowed, fields)
    else (allowed, enter (separated line) fields)

unfoldable pub read_lines : Option (List Bytes) → List Bytes → Reading → Reading
unfolding read_line trim_space
read_lines names [] so_far = so_far
read_lines names (line ∷ lines) so_far =
    read_lines names lines (read_line names (trim_space line) so_far)

-- What opening and scanning a file give: nothing, or the lines and whether there was no error.
abbrev pub Scanned : Type 0
Scanned = Option (List Bytes × Bool)

-- ParseINI
unfoldable pub parse_ini : Option (List Bytes) → Scanned → Option (List (Bytes × Bytes))
unfolding read_lines
parse_ini names none = none
parse_ini names (some (lines, fine)) =
    if fine then some (read_lines names lines (false, [])).1 else none

-- ===== src/Config/Ini/Sections.antt =====
-- pkg/utils/parser.go: what ParseINI gives of a file, by its sections.
use micrun.Prelude.{
  List, [], ◌∷◌, true, false, some, Bytes, if◌then◌else◌, ◌≡◌, refl, ap, Bool-cases, inl, inr, All,
}
use micrun.Text.{trim_space}
use micrun.Container.Making.{in_list}
use micrun.Config.Ini.{
  is_comment, is_header, section_name, Reading, read_line, read_lines, parse_ini,
}

-- The names of the sections of a file, in lower case.
unfoldable pub sections : List Bytes → List Bytes
sections [] = []
sections (line ∷ lines) =
    let rest = sections lines in
    let trimmed = trim_space line in
    if is_comment trimmed
    then rest
    else if is_header trimmed
    then section_name trimmed ∷ rest
    else rest

-- A file without an allowed section.
read_lines-outside :
    (names lines : List Bytes) (fields : List (Bytes × Bytes))
    → All (λ name. in_list names name ≡ false) (sections lines)
    → read_lines (some names) lines (false, fields) ≡ (false, fields)
unfolding read_lines read_line sections
read_lines-outside names [] fields h = refl
read_lines-outside names (line ∷ lines) fields h =
    elim (Bool-cases (is_comment (trim_space line))) [
      | inl comment ↦ rw comment (read_lines-outside names lines fields (rw comment at h))
      | inr counts ↦ elim (Bool-cases (is_header (trim_space line))) [
        | inl header ↦
            let (first, rest) = rw counts at (rw header at h) in
            rw counts (rw header (rw first (read_lines-outside names lines fields rest)))
        | inr other ↦
            rw counts
              (rw other (read_lines-outside names lines fields (rw counts at (rw other at h))))
      ]
    ]

pub parse_ini-outside :
    (names lines : List Bytes)
    → All (λ name. in_list names name ≡ false) (sections lines)
    → parse_ini (some names) (some (lines, true)) ≡ some []
unfolding parse_ini
parse_ini-outside names lines h =
    ap (λ (r : Reading). some r.1) (read_lines-outside names lines [] h)

-- ===== src/BeadGate.antt =====
-- src/activation/bead-gate.ts: the sections of a bead's description, and the admission of a bead as a
-- task contract. A letter beyond ASCII keeps its case, and a line holds no line terminator within.
pub mod Headings
pub mod Admission
use mathlib.Core.List.{reverse}
use unit_ai_specialists.Common.{
  ℕ, ◌==◌, leb, Bool, true, false, not, ◌&&◌, ◌||◌, Option, none, some, List, [], ◌∷◌, ◌++◌, map,
  String, str_eq, all, any, filter, is_text, if◌then◌else◌,
}
use unit_ai_specialists.Common.Text.{codes, is_space, upper, lower, skip, trim, same_codes}
use unit_ai_specialists.Common.Dict.{Dict, get, set}

pub data Section : Type 0 where
  problem success scope non_goals constraints validation output scrutiny : Section

abbrev pub name_of : Section → String
name_of problem = "PROBLEM"
name_of success = "SUCCESS"
name_of scope = "SCOPE"
name_of non_goals = "NON_GOALS"
name_of constraints = "CONSTRAINTS"
name_of validation = "VALIDATION"
name_of output = "OUTPUT"
name_of scrutiny = "SCRUTINY"

abbrev pub required_sections : List Section
required_sections = problem ∷ success ∷ scope ∷ non_goals ∷ constraints ∷ validation ∷ output ∷ []

abbrev all_headings : List Section
all_headings = required_sections ++ scrutiny ∷ []

-- `ALL_HEADINGS.has(text)`.
named : List ℕ → List Section → Option Section
named text [] = none
named text (s ∷ ss) =
    let rest = named text ss in if same_codes (codes (name_of s)) text then some s else rest

is_letter : ℕ → Bool
is_letter c = (leb b'A' c && leb c b'Z') || (leb b'a' c && leb c b'z')

-- `/[\s-]+/g` to "_": `within` tells that the character before was replaced.
underscores : Bool → List ℕ → List ℕ
unfolding is_space
underscores within [] = []
underscores within (c ∷ s) =
    let next = underscores true s in
    let kept = c ∷ underscores false s in
    if is_space c || c == b'-' then (if within then next else b'_' ∷ next) else kept

canonical : List ℕ → List ℕ
unfolding underscores upper
canonical text = underscores false (map upper text)

-- `/^#+\s*/`.
strip_marks : List ℕ → List ℕ
unfolding skip is_space
strip_marks [] = []
strip_marks (c ∷ s) = if c == b'#' then skip is_space (skip (λ d. d == b'#') s) else c ∷ s

strip_colon : List ℕ → List ℕ
strip_colon [] = []
strip_colon (c ∷ []) = if c == b':' then [] else c ∷ []
strip_colon (c ∷ d ∷ s) = c ∷ strip_colon (d ∷ s)

-- The text before the first colon and the text after it.
split_colon : List ℕ → Option (List ℕ × List ℕ)
split_colon [] = none
split_colon (c ∷ s) =
    let rest = split_colon s in
    if c == b':'
    then some ([], s)
    else elim rest [ none ↦ none | some (before, after) ↦ some (c ∷ before, after) ]

-- `[A-Za-z][A-Za-z _-]*`.
is_name : List ℕ → Bool
unfolding is_letter
is_name [] = false
is_name (c ∷ s) = is_letter c && all (λ d. is_letter d || d == b' ' || d == b'_' || d == b'-') s

-- A heading, and the text on its line.
pub record Heading : Type 0 where
  pub section : Section
  pub inline_body : List ℕ

inline_heading : Option (List ℕ × List ℕ) → Option Heading
unfolding canonical trim is_name named
inline_heading none = none
inline_heading (some (before, after)) =
    if is_name (trim before)
    then elim (named (canonical (trim before)) all_headings) [
      | none ↦ none
      | some s ↦ some (record { section = s; inline_body = trim after })
    ]
    else none

unfoldable pub heading_of : List ℕ → Option Heading
unfolding canonical trim strip_marks strip_colon split_colon inline_heading named
heading_of line =
    let bare = trim (filter (λ c. not (c == b'*')) (strip_marks (trim line))) in
    elim (named (canonical (trim (strip_colon bare))) all_headings) [
      | some s ↦ some (record { section = s; inline_body = [] })
      | none ↦ inline_heading (split_colon bare)
    ]

pub record Parse : Type 0 where
  pub sections : Dict (List ℕ)
  pub current : Option Section
  pub body : List (List ℕ)

-- `body.join('\n')`.
unfoldable pub join_lines : List (List ℕ) → List ℕ
join_lines [] = []
join_lines (line ∷ []) = line
join_lines (line ∷ next ∷ lines) = line ++ b'\n' ∷ join_lines (next ∷ lines)

unfoldable pub flush : Parse → Dict (List ℕ)
unfolding join_lines trim
flush p = elim p.current [
  | none ↦ p.sections
  | some s ↦ set (name_of s) (trim (join_lines p.body)) p.sections
]

abbrev pub line_of : List ℕ → List (List ℕ)
line_of [] = []
line_of (c ∷ s) = (c ∷ s) ∷ []

abbrev push_line : Option Section → List ℕ → List (List ℕ) → List (List ℕ)
push_line none line body = body
push_line (some s) line body = body ++ line ∷ []

abbrev pub read_line : Parse → List ℕ → Option Heading → Parse
read_line p line (some h) = record {
  sections = flush p;
  current = some h.section;
  body = line_of h.inline_body;
}
read_line p line none = record p { body = push_line p.current line p.body }

unfoldable pub read_lines : Parse → List (List ℕ) → Parse
unfolding heading_of flush
read_lines p [] = p
read_lines p (line ∷ lines) = read_lines (read_line p line (heading_of line)) lines

-- `split('\n')`.
unfoldable pub split_lines : List ℕ → List (List ℕ)
split_lines [] = [] ∷ []
split_lines (c ∷ s) =
    let rest = split_lines s in
    if c == b'\n'
    then [] ∷ rest
    else elim rest [ [] ↦ (c ∷ []) ∷ [] | line ∷ lines ↦ (c ∷ line) ∷ lines ]

abbrev pub nothing_read : Parse
nothing_read = record { sections = []; current = none; body = [] }

unfoldable pub extract_sections : String → Dict (List ℕ)
unfolding read_lines flush split_lines
extract_sections description = flush (read_lines nothing_read (split_lines (codes description)))

-- ===== src/BeadGate/Headings.antt =====
-- The headings of src/activation/bead-gate.ts as they are written, in the forms that the comment on
-- `headingOf` names.
pub mod Trimming
pub mod Read
use mathlib.Core.List.{reverse, reverse-append, reverse-reverse, append_assoc}
use unit_ai_specialists.Common.{
  ℕ, ◌==◌, Bool, true, false, not, ◌≡◌, refl, sym, ap, ◌∙◌, subst, inl, inr, Option, none, some,
  List, [], ◌∷◌, ◌++◌, All, filter, if◌then◌else◌, Bool-cases,
}
use unit_ai_specialists.Common.Text.{codes, is_space, upper, skip, trim, same_codes}
use unit_ai_specialists.BeadGate.{
  Section, problem, success, scope, non_goals, constraints, validation, output, scrutiny, name_of,
  all_headings, named, canonical, underscores, strip_marks, strip_colon, split_colon, is_name,
  is_letter, Heading, inline_heading, heading_of,
}

-- A name alone, with heading marks, bold or with a colon, or with a colon and a body on its line.
pub data Form : Type 0 where
  alone marked bold colon : Form
  inline : List ℕ → Form

unfoldable pub heading_line : Form → Section → List ℕ
heading_line alone s = codes (name_of s)
heading_line marked s = codes "## " ++ codes (name_of s)
heading_line bold s = codes "**" ++ codes (name_of s) ++ codes "**"
heading_line colon s = codes (name_of s) ++ codes ":"
heading_line (inline body) s = codes (name_of s) ++ b':' ∷ body

-- What the form says of the body.
abbrev pub inline_of : Form → List ℕ
inline_of (inline body) = trim body
inline_of _ = []

-- A text that is not empty and does not end in white space.
abbrev pub EndsInText : List ℕ → Type 0
EndsInText [] = ⊥
EndsInText (c ∷ []) = is_space c ≡ false
EndsInText (c ∷ d ∷ s) = EndsInText (d ∷ s)

abbrev pub IsForm : Form → Type 0
IsForm (inline body) = EndsInText body × All (λ c. not (c == b'*') ≡ true) body
IsForm _ = Unit {0}

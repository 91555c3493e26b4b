-- ===== src/BeadGate/Headings/Read.antt =====
-- `headingOf` reads each form of a heading.
use unit_ai_specialists.Common.{
  ℕ, ◌==◌, Bool, true, not, ◌≡◌, refl, ap, ◌∙◌, Option, none, some, List, [], ◌∷◌, ◌++◌, All,
  filter,
}
use unit_ai_specialists.Common.Text.{codes, is_space, trim}
use unit_ai_specialists.BeadGate.{
  Section, problem, success, scope, non_goals, constraints, validation, output, scrutiny, name_of,
  all_headings, named, canonical, strip_marks, strip_colon, split_colon, Heading, inline_heading,
  heading_of,
}
use unit_ai_specialists.BeadGate.Headings.{
  Form, alone, marked, bold, colon, inline, heading_line, inline_of, EndsInText, IsForm,
}
use unit_ai_specialists.BeadGate.Headings.Trimming.{
  EndsInText-append, trim_text, trim_until, filter-All,
}

heading_alone :
    (s : Section)
    → heading_of (heading_line alone s) ≡ some (record { section = s; inline_body = [] })
unfolding heading_of heading_line
heading_alone problem = refl
heading_alone success = refl
heading_alone scope = refl
heading_alone non_goals = refl
heading_alone constraints = refl
heading_alone validation = refl
heading_alone output = refl
heading_alone scrutiny = refl

heading_marked :
    (s : Section)
    → heading_of (heading_line marked s) ≡ some (record { section = s; inline_body = [] })
unfolding heading_of heading_line
heading_marked problem = refl
heading_marked success = refl
heading_marked scope = refl
heading_marked non_goals = refl
heading_marked constraints = refl
heading_marked validation = refl
heading_marked output = refl
heading_marked scrutiny = refl

heading_bold :
    (s : Section)
    → heading_of (heading_line bold s) ≡ some (record { section = s; inline_body = [] })
unfolding heading_of heading_line
heading_bold problem = refl
heading_bold success = refl
heading_bold scope = refl
heading_bold non_goals = refl
heading_bold constraints = refl
heading_bold validation = refl
heading_bold output = refl
heading_bold scrutiny = refl

heading_colon :
    (s : Section)
    → heading_of (heading_line colon s) ≡ some (record { section = s; inline_body = [] })
unfolding heading_of heading_line
heading_colon problem = refl
heading_colon success = refl
heading_colon scope = refl
heading_colon non_goals = refl
heading_colon constraints = refl
heading_colon validation = refl
heading_colon output = refl
heading_colon scrutiny = refl

abbrev no_star : ℕ → Bool
no_star c = not (c == b'*')

-- The line without its marks.
bare_line :
    (s : Section) (body : List ℕ)
    → EndsInText body
    → All (λ c. no_star c ≡ true) body
    → trim (filter no_star (strip_marks (trim (heading_line (inline body) s))))
      ≡ heading_line (inline body) s
unfolding heading_line strip_marks is_space
bare_line s body ends plain = go s
  where
    same : filter no_star body ≡ body
    same = filter-All no_star body plain

    go :
        (s : Section)
        → trim (filter no_star (strip_marks (trim (heading_line (inline body) s))))
          ≡ heading_line (inline body) s
    go problem =
        let kept =
          trim_text b'P' (codes "ROBLEM" ++ b':' ∷ body) refl
            (EndsInText-append (codes "PROBLEM:") body ends) in
        ap (λ l. trim (filter no_star (strip_marks l))) kept
        ∙ ap (λ l. trim (codes "PROBLEM:" ++ l)) same
        ∙ kept
    go success =
        let kept =
          trim_text b'S' (codes "UCCESS" ++ b':' ∷ body) refl
            (EndsInText-append (codes "SUCCESS:") body ends) in
        ap (λ l. trim (filter no_star (strip_marks l))) kept
        ∙ ap (λ l. trim (codes "SUCCESS:" ++ l)) same
        ∙ kept
    go scope =
        let kept =
          trim_text b'S' (codes "COPE" ++ b':' ∷ body) refl
            (EndsInText-append (codes "SCOPE:") body ends) in
        ap (λ l. trim (filter no_star (strip_marks l))) kept
        ∙ ap (λ l. trim (codes "SCOPE:" ++ l)) same
        ∙ kept
    go non_goals =
        let kept =
          trim_text b'N' (codes "ON_GOALS" ++ b':' ∷ body) refl
            (EndsInText-append (codes "NON_GOALS:") body ends) in
        ap (λ l. trim (filter no_star (strip_marks l))) kept
        ∙ ap (λ l. trim (codes "NON_GOALS:" ++ l)) same
        ∙ kept
    go constraints =
        let kept =
          trim_text b'C' (codes "ONSTRAINTS" ++ b':' ∷ body) refl
            (EndsInText-append (codes "CONSTRAINTS:") body ends) in
        ap (λ l. trim (filter no_star (strip_marks l))) kept
        ∙ ap (λ l. trim (codes "CONSTRAINTS:" ++ l)) same
        ∙ kept
    go validation =
        let kept =
          trim_text b'V' (codes "ALIDATION" ++ b':' ∷ body) refl
            (EndsInText-append (codes "VALIDATION:") body ends) in
        ap (λ l. trim (filter no_star (strip_marks l))) kept
        ∙ ap (λ l. trim (codes "VALIDATION:" ++ l)) same
        ∙ kept
    go output =
        let kept =
          trim_text b'O' (codes "UTPUT" ++ b':' ∷ body) refl
            (EndsInText-append (codes "OUTPUT:") body ends) in
        ap (λ l. trim (filter no_star (strip_marks l))) kept
        ∙ ap (λ l. trim (codes "OUTPUT:" ++ l)) same
        ∙ kept
    go scrutiny =
        let kept =
          trim_text b'S' (codes "CRUTINY" ++ b':' ∷ body) refl
            (EndsInText-append (codes "SCRUTINY:") body ends) in
        ap (λ l. trim (filter no_star (strip_marks l))) kept
        ∙ ap (λ l. trim (codes "SCRUTINY:" ++ l)) same
        ∙ kept

-- The whole line is the name of no section.
read_inline :
    (s : Section) (left body : List ℕ)
    → (elim (named (canonical (codes (name_of s) ++ b':' ∷ left)) all_headings) [
      | some t ↦ some (record { section = t; inline_body = [] })
      | none ↦ inline_heading (split_colon (heading_line (inline body) s))
    ])
      ≡ some (record { section = s; inline_body = trim body })
unfolding named canonical inline_heading split_colon heading_line
read_inline problem left body = refl
read_inline success left body = refl
read_inline scope left body = refl
read_inline non_goals left body = refl
read_inline constraints left body = refl
read_inline validation left body = refl
read_inline output left body = refl
read_inline scrutiny left body = refl

strip_colon_inside :
    (xs : List ℕ) (c d : ℕ) (s : List ℕ)
    → strip_colon (xs ++ c ∷ d ∷ s) ≡ xs ++ c ∷ strip_colon (d ∷ s)
unfolding strip_colon
strip_colon_inside [] c d s = refl
strip_colon_inside (x ∷ []) c d s = refl
strip_colon_inside (x ∷ y ∷ xs) c d s = ap (λ l. x ∷ l) (strip_colon_inside (y ∷ xs) c d s)

-- The trimmed line has a colon behind the name, whatever it ends in.
whole_line :
    (s : Section) (body : List ℕ)
    → EndsInText body
    → (left : List ℕ) × (trim (strip_colon (heading_line (inline body) s))
        ≡ codes (name_of s) ++ b':' ∷ left)
unfolding heading_line is_space
whole_line s [] ends = absurd ends
whole_line problem (d ∷ body) ends =
    let (left, e) = trim_until b'P' (codes "ROBLEM") b':' (strip_colon (d ∷ body)) refl refl in
    (left, ap trim (strip_colon_inside (codes "PROBLEM") b':' d body) ∙ e)
whole_line success (d ∷ body) ends =
    let (left, e) = trim_until b'S' (codes "UCCESS") b':' (strip_colon (d ∷ body)) refl refl in
    (left, ap trim (strip_colon_inside (codes "SUCCESS") b':' d body) ∙ e)
whole_line scope (d ∷ body) ends =
    let (left, e) = trim_until b'S' (codes "COPE") b':' (strip_colon (d ∷ body)) refl refl in
    (left, ap trim (strip_colon_inside (codes "SCOPE") b':' d body) ∙ e)
whole_line non_goals (d ∷ body) ends =
    let (left, e) = trim_until b'N' (codes "ON_GOALS") b':' (strip_colon (d ∷ body)) refl refl in
    (left, ap trim (strip_colon_inside (codes "NON_GOALS") b':' d body) ∙ e)
whole_line constraints (d ∷ body) ends =
    let (left, e) = trim_until b'C' (codes "ONSTRAINTS") b':' (strip_colon (d ∷ body)) refl refl in
    (left, ap trim (strip_colon_inside (codes "CONSTRAINTS") b':' d body) ∙ e)
whole_line validation (d ∷ body) ends =
    let (left, e) = trim_until b'V' (codes "ALIDATION") b':' (strip_colon (d ∷ body)) refl refl in
    (left, ap trim (strip_colon_inside (codes "VALIDATION") b':' d body) ∙ e)
whole_line output (d ∷ body) ends =
    let (left, e) = trim_until b'O' (codes "UTPUT") b':' (strip_colon (d ∷ body)) refl refl in
    (left, ap trim (strip_colon_inside (codes "OUTPUT") b':' d body) ∙ e)
whole_line scrutiny (d ∷ body) ends =
    let (left, e) = trim_until b'S' (codes "CRUTINY") b':' (strip_colon (d ∷ body)) refl refl in
    (left, ap trim (strip_colon_inside (codes "SCRUTINY") b':' d body) ∙ e)

heading_inline :
    (s : Section) (body : List ℕ)
    → EndsInText body
    → All (λ c. no_star c ≡ true) body
    → heading_of (heading_line (inline body) s)
      ≡ some (record { section = s; inline_body = trim body })
unfolding heading_of
heading_inline s body ends plain =
    let (left, e) = whole_line s body ends in
    let read : List ℕ → List ℕ → Option Heading = λ whole bare.
      (elim (named (canonical whole) all_headings) [
        | some t ↦ some (record { section = t; inline_body = [] })
        | none ↦ inline_heading (split_colon bare)
      ]) in
    ap (λ l. read (trim (strip_colon l)) l) (bare_line s body ends plain)
    ∙ ap (λ l. read l (heading_line (inline body) s)) e
    ∙ read_inline s left body

-- Each form of a heading is read as the section that it names, with the body on its line.
pub heading_of_line :
    (f : Form) (s : Section)
    → IsForm f
    → heading_of (heading_line f s) ≡ some (record { section = s; inline_body = inline_of f })
heading_of_line alone s h = heading_alone s
heading_of_line marked s h = heading_marked s
heading_of_line bold s h = heading_bold s
heading_of_line colon s h = heading_colon s
heading_of_line (inline body) s h = heading_inline s body h.0 h.1

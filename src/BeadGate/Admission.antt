-- ===== src/BeadGate/Admission.antt =====
-- `evaluateBeadReadiness` of src/activation/bead-gate.ts, and the level of scrutiny that it looks for.
pub mod Contract
use unit_ai_specialists.Common.{
  ℕ, ◌==◌, leb, Bool, true, false, not, ◌&&◌, ◌||◌, Option, none, some, List, [], ◌∷◌, map, String,
  str_eq, any, filter, is_text, if◌then◌else◌,
}
use unit_ai_specialists.Common.Text.{codes, is_space, upper, lower, skip, trim, same_codes}
use unit_ai_specialists.Common.Dict.{Dict, get}
use unit_ai_specialists.BeadGate.{Section, scrutiny, name_of, required_sections, extract_sections}

is_word : ℕ → Bool
is_word c =
    (leb b'A' c && leb c b'Z')
    || (leb b'a' c && leb c b'z')
    || (leb b'0' c && leb c b'9')
    || c == b'_'

-- `\b` behind a word.
ends_word : List ℕ → Bool
unfolding is_word
ends_word [] = true
ends_word (c ∷ s) = not (is_word c)

-- What follows a word at the front, in any case.
after_word : List ℕ → List ℕ → Option (List ℕ)
unfolding upper
after_word [] s = some s
after_word (w ∷ ws) [] = none
after_word (w ∷ ws) (c ∷ s) = let rest = after_word ws s in if upper c == w then rest else none

abbrev ends_after : Option (List ℕ) → Bool
ends_after none = false
ends_after (some s) = ends_word s

is_level : List ℕ → Bool
unfolding after_word ends_word
is_level s =
    any (λ w. ends_after (after_word (codes w) s)) ("LOW" ∷ "MEDIUM" ∷ "HIGH" ∷ "CRITICAL" ∷ [])

-- `[^\n]*\n?\s*\**\s*` and a level: from any place of the line.
level_from_line : List ℕ → Bool
unfolding is_level skip is_space
level_from_line [] = is_level []
level_from_line (c ∷ s) =
    let rest = level_from_line s in
    is_level (skip is_space (skip (λ d. d == b'*') (skip is_space (c ∷ s))))
    || (not (c == b'\n') && rest)

skip_mark : List ℕ → List ℕ
skip_mark [] = []
skip_mark (c ∷ s) = if c == b':' || c == b'-' || c == 8212 then s else c ∷ s

-- `\s*[:\-—]?\s*` and a level.
level_after_mark : List ℕ → Bool
unfolding is_level skip is_space skip_mark
level_after_mark s = is_level (skip is_space (skip_mark (skip is_space s)))

scrutiny_at : Option (List ℕ) → Bool
unfolding ends_word level_from_line level_after_mark
scrutiny_at none = false
scrutiny_at (some s) = ends_word s && (level_from_line s || level_after_mark s)

search_scrutiny : List ℕ → Bool
unfolding after_word scrutiny_at
search_scrutiny [] = false
search_scrutiny (c ∷ s) = scrutiny_at (after_word (codes "SCRUTINY") (c ∷ s)) || search_scrutiny s

-- Whether `scrutinyLevel` finds one; the callers ask no more.
unfoldable pub has_scrutiny_level : String → Bool
unfolding search_scrutiny
has_scrutiny_level description = search_scrutiny (codes description)

pub record BeadRecord : Type 0 where
  pub id : String
  pub description : Option String
  pub status : Option String

pub data BeadGateResult : Type 0 where
  ok : BeadGateResult
  not_dispatchable contract_is_draft no_scrutiny_level : BeadGateResult
  sections_missing : List Section → BeadGateResult

abbrev pub description_of : Option String → String
description_of none = ""
description_of (some d) = d

unfoldable pub is_non_dispatchable : Option String → Bool
unfolding trim lower
is_non_dispatchable none = false
is_non_dispatchable (some status) =
    let s = map lower (trim (codes status)) in
    same_codes s (codes "closed") || same_codes s (codes "deferred")

-- `!sections.get(section)`: absent, or empty.
abbrev pub is_blank : Option (List ℕ) → Bool
is_blank none = true
is_blank (some []) = true
is_blank (some (_ ∷ _)) = false

unfoldable pub missing_sections : Dict (List ℕ) → List Section
missing_sections sections = filter (λ s. is_blank (get (name_of s) sections)) required_sections

judge_sections : String → List Section → BeadGateResult
judge_sections description [] =
    if not (has_scrutiny_level description) then no_scrutiny_level else ok
judge_sections description (s ∷ missing) = sections_missing (s ∷ missing)

-- `state` is the contract marker that the command `bd` reports for the bead.
unfoldable pub evaluate_bead_readiness : BeadRecord → Option String → BeadGateResult
unfolding is_non_dispatchable judge_sections missing_sections extract_sections
evaluate_bead_readiness bead state =
    let description = description_of bead.description in
    if is_non_dispatchable bead.status
    then not_dispatchable
    else if is_text state "draft"
    then contract_is_draft
    else judge_sections description (missing_sections (extract_sections description))

-- ===== src/Epic/Readiness/Verdict.antt =====
-- `parseReviewerVerdict` of src/specialist/epic-readiness.ts. The expression
-- /Verdict:\s*\**\s*(PASS|PARTIAL|FAIL)\s*\**/i is read as the search for the first place where
-- its parts stand one behind the other; the parts share no character, so nothing is tried twice.
use unit_ai_specialists.Common.Text.{codes, is_space, upper, skip}
use unit_ai_specialists.Common.{
  ℕ, ◌==◌, Bool, true, false, ◌≡◌, refl, Option, none, some, List, [], ◌∷◌, String, if◌then◌else◌,
}

pub data ReviewerVerdict : Type 0 where
  pass partial fail missing : ReviewerVerdict

is_star : ℕ → Bool
is_star c = c == b'*'

-- The word at the front, in capitals, and what follows it.
expect : List ℕ → List ℕ → Option (List ℕ)
expect [] s = some s
expect (w ∷ ws) [] = none
expect (w ∷ ws) (c ∷ s) = let rest = expect ws s in if upper c == w then rest else none

-- The alternatives in their order.
verdict_word : List ℕ → ReviewerVerdict
verdict_word s = elim (expect (codes "PASS") s) [
  | some _ ↦ pass
  | none ↦ elim (expect (codes "PARTIAL") s) [
    | some _ ↦ partial
    | none ↦ elim (expect (codes "FAIL") s) [ some _ ↦ fail | none ↦ missing ]
  ]
]

verdict_at : List ℕ → ReviewerVerdict
verdict_at s = elim (expect (codes "VERDICT:") s) [
  | none ↦ missing
  | some rest ↦ verdict_word (skip is_space (skip is_star (skip is_space rest)))
]

abbrev pub is_missing : ReviewerVerdict → Bool
is_missing missing = true
is_missing _ = false

abbrev otherwise : ReviewerVerdict → ReviewerVerdict → ReviewerVerdict
otherwise missing v = v
otherwise v _ = v

search_verdict : List ℕ → ReviewerVerdict
search_verdict [] = missing
search_verdict (c ∷ s) = otherwise (verdict_at (c ∷ s)) (search_verdict s)

unfoldable pub parse_reviewer_verdict : Option String → ReviewerVerdict
unfolding search_verdict verdict_at verdict_word expect skip is_space is_star upper
parse_reviewer_verdict none = missing
parse_reviewer_verdict (some output) = search_verdict (codes output)

reviewer_verdict_tests :
    (parse_reviewer_verdict (some "ok\n- verdict: **Pass**") ≡ pass)
    × (parse_reviewer_verdict (some "Verdict: maybe, then Verdict:FAIL") ≡ fail)
    × (parse_reviewer_verdict (some "Verdict PASS") ≡ missing)
unfolding parse_reviewer_verdict
reviewer_verdict_tests = (refl, refl, refl)

-- ===== src/BeadGate/Admission/Contract/Examples.antt =====
-- A contract at a concrete input (src/activation/bead-gate.ts).
use unit_ai_specialists.Common.{
  ℕ, ◌≡◌, refl, ◌↔◌, true, false, not, none, some, List, [], ◌∷◌, ◌++◌, String, all, is_text, All,
}
use unit_ai_specialists.Common.Text.{codes}
use unit_ai_specialists.Common.Dict.{get, set}
use unit_ai_specialists.BeadGate.{
  Section, problem, success, scope, non_goals, constraints, validation, output, scrutiny,
  heading_of, required_sections, split_lines,
}
use unit_ai_specialists.Common.Text.{is_space}
use unit_ai_specialists.BeadGate.Headings.{
  Form, alone, marked, bold, colon, inline, IsForm, heading_line,
}
use unit_ai_specialists.BeadGate.Admission.{
  BeadRecord, ok, is_non_dispatchable, is_blank, has_scrutiny_level, evaluate_bead_readiness,
}
use unit_ai_specialists.BeadGate.Admission.Contract.{
  Block, written, Plain, body_of, contract_admitted,
}

abbrev text : String
text =
    "intro\nPROBLEM: it breaks\n## SUCCESS\nok\n**SCOPE**\nx.ts\nNON_GOALS:\nnone\nCONSTRAINTS\nnone\nVALIDATION\ntests\nOUTPUT\npatch\nSCRUTINY\nLOW"

abbrev block : Form → Section → String → Block
block form s body = record { form = form; section = s; lines = codes body ∷ [] }

abbrev blocks : List Block
blocks =
    record { form = inline (codes " it breaks"); section = problem; lines = [] }
    ∷ block marked success "ok"
    ∷ block bold scope "x.ts"
    ∷ block colon non_goals "none"
    ∷ block alone constraints "none"
    ∷ block alone validation "tests"
    ∷ block alone output "patch"
    ∷ block alone scrutiny "LOW"
    ∷ []

abbrev preamble : List (List ℕ)
preamble = codes "intro" ∷ []

Plain-intro : Plain preamble
unfolding heading_of
Plain-intro = (refl, tt)

formed_bodies : All (λ (b : Block). IsForm b.form × Plain b.lines) blocks
unfolding heading_of is_space
formed_bodies = (
  ((refl, (refl, (refl, (refl, (refl, (refl, (refl, (refl, (refl, (refl, (refl, tt))))))))))), tt),
  (
    (tt, (refl, tt)),
    (
      (tt, (refl, tt)),
      (
        (tt, (refl, tt)),
        ((tt, (refl, tt)), ((tt, (refl, tt)), ((tt, (refl, tt)), ((tt, (refl, tt)), tt)))),
      ),
    ),
  ),
)

lines_of_text : split_lines (codes text) ≡ preamble ++ written blocks
unfolding split_lines written heading_line
lines_of_text = refl

abbrev bead : BeadRecord
bead = record { id = "b1"; description = some text; status = some "open" }

admitted_test : evaluate_bead_readiness bead none ≡ ok
unfolding evaluate_bead_readiness has_scrutiny_level get set
admitted_test = refl

contract_admitted_example : (evaluate_bead_readiness bead none ≡ ok) ↔ (
    (is_non_dispatchable (some "open") ≡ false)
    × (is_text none "draft" ≡ false)
    × (all (λ s. not (is_blank (body_of s blocks))) required_sections ≡ true)
    × (has_scrutiny_level text ≡ true))
contract_admitted_example =
    contract_admitted text preamble blocks bead none refl
      (Plain-intro, formed_bodies, lines_of_text)

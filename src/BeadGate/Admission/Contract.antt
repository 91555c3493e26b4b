-- ===== src/BeadGate/Admission/Contract.antt =====
-- What a description that is written in sections says to the gate of src/activation/bead-gate.ts.
mod Examples
use mathlib.Core.List.{append-nil, append_assoc}
use unit_ai_specialists.Common.{
  ℕ, ◌≡◌, refl, sym, ◌∙◌, ap, subst, ◌↔◌, inl, inr, Bool, true, false, not, Option, none, some,
  List, [], ◌∷◌, ◌++◌, String, str_eq, all, filter, is_text, coalesce, if◌then◌else◌, arith, All,
  Bool-cases, Option-cases,
}
use unit_ai_specialists.Common.Text.{codes, trim}
use unit_ai_specialists.Common.Dict.{Dict, get, set, get-set}
use unit_ai_specialists.BeadGate.{
  Section, problem, success, scope, non_goals, constraints, validation, output, scrutiny, name_of,
  required_sections, Heading, heading_of, Parse, join_lines, flush, read_line, read_lines,
  split_lines, nothing_read, extract_sections,
}
use unit_ai_specialists.BeadGate.{line_of}
use unit_ai_specialists.BeadGate.Headings.{Form, IsForm, heading_line, inline_of}
use unit_ai_specialists.BeadGate.Headings.Read.{heading_of_line}
use unit_ai_specialists.BeadGate.Admission.{
  BeadRecord, BeadGateResult, ok, description_of, is_non_dispatchable, is_blank, missing_sections,
  judge_sections, has_scrutiny_level, evaluate_bead_readiness,
}

-- A section as it is written: its heading in one of the forms, and the lines of its body.
pub record Block : Type 0 where
  pub form : Form
  pub section : Section
  pub lines : List (List ℕ)

unfoldable pub written : List Block → List (List ℕ)
written [] = []
written (b ∷ blocks) = heading_line b.form b.section ∷ (b.lines ++ written blocks)

-- No line of these is a heading.
abbrev pub Plain : List (List ℕ) → Type 0
Plain lines = All (λ line. heading_of line ≡ none) lines

-- The body of a block: what stands on the line of the heading, and the lines below it.
abbrev pub text_of : Block → List ℕ
text_of b = trim (join_lines (line_of (inline_of b.form) ++ b.lines))

-- The body of the last block of a section, without the white space around it.
unfoldable pub body_of : Section → List Block → Option (List ℕ)
body_of s [] = none
body_of s (b ∷ blocks) =
    coalesce (body_of s blocks)
      (if str_eq (name_of b.section) (name_of s) then some (text_of b) else none)

read_lines-append :
    (p : Parse) (xs ys : List (List ℕ)) → read_lines p (xs ++ ys) ≡ read_lines (read_lines p xs) ys
unfolding read_lines
read_lines-append p [] ys = refl
read_lines-append p (x ∷ xs) ys = read_lines-append (read_line p x (heading_of x)) xs ys

read_body :
    (m : Dict (List ℕ)) (s : Section) (body lines : List (List ℕ))
    → Plain lines
    → read_lines (record { sections = m; current = some s; body = body }) lines
      ≡ record { sections = m; current = some s; body = body ++ lines }
unfolding read_lines
read_body m s body [] h =
    ap (λ b. record { sections = m; current = some s; body = b }) (sym (append-nil body))
read_body m s body (line ∷ lines) (plain, h) = rw plain (
    read_body m s (body ++ line ∷ []) lines h
    ∙ ap (λ b. record { sections = m; current = some s; body = b })
        (append_assoc body (line ∷ []) lines))

read_preamble : (lines : List (List ℕ)) → Plain lines → read_lines nothing_read lines ≡ nothing_read
unfolding read_lines
read_preamble [] h = refl
read_preamble (line ∷ lines) (plain, h) = rw plain (read_preamble lines h)

abbrev set_all : List Block → Dict (List ℕ) → Dict (List ℕ)
set_all [] m = m
set_all (b ∷ blocks) m = set_all blocks (set (name_of b.section) (text_of b) m)

read_blocks :
    (p : Parse) (blocks : List Block)
    → All (λ b. IsForm b.form × Plain b.lines) blocks
    → flush (read_lines p (written blocks)) ≡ set_all blocks (flush p)
unfolding written read_lines flush
read_blocks p [] h = refl
read_blocks p (b ∷ blocks) ((formed, plain), h) =
    let lead = line_of (inline_of b.form) in
    let opened : Parse = record { sections = flush p; current = some b.section; body = lead } in
    let closed : Parse = record {
      sections = flush p;
      current = some b.section;
      body = lead ++ b.lines;
    } in
    let rest : List (List ℕ) = b.lines ++ written blocks in
    ap (λ h. flush (read_lines (read_line p (heading_line b.form b.section) h) rest))
      (heading_of_line b.form b.section formed)
    ∙ (ap flush (read_lines-append opened b.lines (written blocks))
        ∙ ap (λ q. flush (read_lines q (written blocks)))
            (read_body (flush p) b.section lead b.lines plain)
        ∙ read_blocks closed blocks h)

get-set_all :
    (s : Section) (blocks : List Block) (m : Dict (List ℕ))
    → get (name_of s) (set_all blocks m) ≡ coalesce (body_of s blocks) (get (name_of s) m)
unfolding body_of
get-set_all s [] m = refl
get-set_all s (b ∷ blocks) m =
    let text : List ℕ = text_of b in
    let was = get-set_all s blocks (set (name_of b.section) text m) in
    let put = get-set (name_of s) (name_of b.section) text m in
    was ∙ elim (Option-cases (body_of s blocks)) [
      | inr (x, e) ↦ rw e refl
      | inl e ↦ elim (Bool-cases (str_eq (name_of b.section) (name_of s))) [
        | inl q ↦ rw (e, put, q) refl
        | inr q ↦ rw (e, put, q) refl
      ]
    ]

coalesce-none : (o : Option (List ℕ)) → coalesce o none ≡ o
coalesce-none none = refl
coalesce-none (some x) = refl

filter_same :
    (p q : Section → Bool) (xs : List Section)
    → ((s : Section) → p s ≡ q s)
    → filter p xs ≡ filter q xs
filter_same p q [] e = refl
filter_same p q (x ∷ xs) e = rw (e x, filter_same p q xs e) refl

filter_empty_iff :
    (p : Section → Bool) (xs : List Section) → (filter p xs ≡ []) ↔ (all (λ s. not (p s)) xs ≡ true)
filter_empty_iff p [] = (λ h. refl, λ h. refl)
filter_empty_iff p (x ∷ xs) = elim (Bool-cases (p x)) [
  | inl e ↦ rw e ((λ h. absurd (cc), λ h. absurd (ground arith)))
  | inr e ↦ rw e (filter_empty_iff p xs)
]

judge_iff :
    (d : String) (missing : List Section)
    → (judge_sections d missing ≡ ok) ↔ ((missing ≡ []) × (has_scrutiny_level d ≡ true))
unfolding judge_sections
judge_iff d [] = ground arith
judge_iff d (s ∷ missing) = ((λ h. absurd (ground arith)), λ h. absurd (cc (h.0)))

-- The gate, for a description whose missing sections and level are known.
evaluate_iff :
    (bead : BeadRecord) (marker : Option String) (missing : List Section)
    → missing_sections (extract_sections (description_of bead.description)) ≡ missing
    → (evaluate_bead_readiness bead marker ≡ ok) ↔ (
        (is_non_dispatchable bead.status ≡ false)
        × (is_text marker "draft" ≡ false)
        × (missing ≡ [])
        × (has_scrutiny_level (description_of bead.description) ≡ true))
unfolding evaluate_bead_readiness
evaluate_iff bead marker missing e = elim (Bool-cases (is_non_dispatchable bead.status)) [
  | inl n ↦ rw n ((λ h. absurd (ground arith)), λ h. absurd (ground (arith, h.0)))
  | inr n ↦ elim (Bool-cases (is_text marker "draft")) [
    | inl d ↦ rw (n, d) ((λ h. absurd (ground arith)), λ h. absurd (ground (arith, h.1)))
    | inr d ↦
        let judged = judge_iff (description_of bead.description) missing in
        rw (n, d, e)
          (
            λ h. let (m, l) = judged.0 h in (refl, refl, m, l),
            λ h. let (n, d, m, l) = h in judged.1 (m, l),
          )
  ]
]

module _ (description : String) (preamble : List (List ℕ)) (blocks : List Block) where
  -- The lines of the description: some text, and sections.
  abbrev pub IsWritten : Type 0
  IsWritten =
      Plain preamble
      × All (λ b. IsForm b.form × Plain b.lines) blocks
      × (split_lines (codes description) ≡ preamble ++ written blocks)

  extract-get :
      IsWritten → (s : Section) → get (name_of s) (extract_sections description) ≡ body_of s blocks
  unfolding extract_sections get
  extract-get (p, h, lines) s =
      let parsed : extract_sections description ≡ set_all blocks [] =
        ap (λ l. flush (read_lines nothing_read l)) lines
        ∙ ap flush (read_lines-append nothing_read preamble (written blocks))
        ∙ ap (λ q. flush (read_lines q (written blocks))) (read_preamble preamble p)
        ∙ read_blocks nothing_read blocks h in
      ap (get (name_of s)) parsed ∙ get-set_all s blocks [] ∙ coalesce-none (body_of s blocks)

  -- A bead whose description is written in sections, each under a heading that stands alone, with marks,
  -- bold or with a colon, or that has a body behind its colon, is admitted exactly when its status is not closed or
  -- deferred, its contract is not marked draft, every required section has a last body that is not
  -- blank, on the line of the heading or below it, and a level of scrutiny is found. A body behind a
  -- colon ends in text and has no `*`, and no other line is a heading.
  pub contract_admitted :
      (bead : BeadRecord) (marker : Option String)
      → description_of bead.description ≡ description
      → IsWritten
      → (evaluate_bead_readiness bead marker ≡ ok) ↔ (
          (is_non_dispatchable bead.status ≡ false)
          × (is_text marker "draft" ≡ false)
          × (all (λ s. not (is_blank (body_of s blocks))) required_sections ≡ true)
          × (has_scrutiny_level description ≡ true))
  unfolding missing_sections
  contract_admitted bead marker e w =
      let blank : Section → Bool = λ s. is_blank (body_of s blocks) in
      let found : missing_sections (extract_sections description) ≡ filter blank required_sections =
        filter_same (λ s. is_blank (get (name_of s) (extract_sections description))) blank
          required_sections (λ s. ap is_blank (extract-get w s)) in
      let gate =
        evaluate_iff bead marker (filter blank required_sections)
          (ap (λ d. missing_sections (extract_sections d)) e ∙ found) in
      let empty = filter_empty_iff blank required_sections in
      (
        λ h. let (n, d, m, l) = gate.0 h in (n, d, empty.0 m, ap has_scrutiny_level (sym e) ∙ l),
        λ h. let (n, d, m, l) = h in gate.1 (n, d, empty.1 m, ap has_scrutiny_level e ∙ l),
      )

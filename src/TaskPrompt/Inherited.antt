-- ===== src/TaskPrompt/Inherited.antt =====
-- A token that names a member which every object inherits (`variables[name]` of
-- src/specialist/templateEngine.ts and src/specialist/task-prompt.ts).
use mathlib.Core.List.{append-nil, append_assoc}
use unit_ai_specialists.Common.{
  true, false, not, ◌≡◌, refl, sym, ap, ◌∙◌, inl, inr, Option, none, some, List, [], ◌∷◌, ◌++◌, All,
  Bool-cases, defined, filter, coalesce, if◌then◌else◌, if_both, arith,
}
use unit_ai_specialists.Common.Text.{same_codes}
use unit_ai_specialists.TaskPrompt.{
  Variable, own, value_of, TaskPromptInput, spread_variables, fill_absent, prompt_variables,
  optionally_absent_placeholders, unresolved_tokens, complete, refuse_or, render_task_prompt,
}
use unit_ai_specialists.TaskPrompt.Skills.{build_skill_prefix}
use unit_ai_specialists.TaskPrompt.Template.{
  Text, continues_name, token, plain, name, advance, scan, tokens_of, extract_template_tokens,
  written_as, render_pieces, render_template,
}
use unit_ai_specialists.TaskPrompt.Template.Laws.{IsName}

same_codes_lem : (s t : Text) → same_codes s t ≡ true → s ≡ t
same_codes_lem [] [] h = refl
same_codes_lem [] (b ∷ t) h = absurd (cc h)
same_codes_lem (a ∷ s) [] h = absurd (cc h)
same_codes_lem (a ∷ s) (b ∷ t) h =
    let first : a ≡ b = ground (arith, h) in
    let others : s ≡ t = same_codes_lem s t (ground (arith, h)) in cc (first, others)

fill-own :
    (inherited : Text → Option Text) (n w : Text) (ks : List Text) (vs : List Variable)
    → inherited n ≡ some w
    → own (fill_absent inherited ks vs) n ≡ own vs n
unfolding fill_absent
fill-own inherited n w [] vs h = refl
fill-own inherited n w (k ∷ ks) vs h =
    let filled : Variable = record { key = k; value = [] } in
    fill-own inherited n w ks (if defined (value_of inherited vs k) then vs else filled ∷ vs) h
    ∙ if_both (λ (x : List Variable). own x n ≡ own vs n) (defined (value_of inherited vs k))
        {x = vs} {y = filled ∷ vs} (λ _. refl)
        (λ lacks. elim (Bool-cases (same_codes k n)) [
          | inr other ↦ rw other refl
          | inl same ↦
              absurd (undefined_not lacks (ap (value_of inherited vs) (same_codes_lem k n same)))
        ])
  where
    undefined_at : (o p : Option Text) → p ≡ some w → defined (coalesce o p) ≡ false → ⊥
    undefined_at none p e f = cc (e, f)
    undefined_at (some a) p e f = cc f

    undefined_not :
        defined (value_of inherited vs k) ≡ false
        → value_of inherited vs k ≡ value_of inherited vs n
        → ⊥
    undefined_not f e = undefined_at (own vs n) (inherited n) h (ap defined (sym e) ∙ f)

scan_rest :
    (n s : Text) → All (λ d. continues_name d ≡ true) s → scan (name n) s ≡ token (n ++ s) ∷ []
unfolding scan advance
scan_rest n [] h = ap (λ t. token t ∷ []) (sym (append-nil n))
scan_rest n (c ∷ s) h =
    let more : scan (name (n ++ c ∷ [])) s ≡ token ((n ++ c ∷ []) ++ s) ∷ [] =
      scan_rest (n ++ c ∷ []) s h.1 in
    rw (h.0) (more ∙ ap (λ t. token t ∷ []) (append_assoc n (c ∷ []) s))

scan_token : (n : Text) → IsName n → scan plain (b'$' ∷ n) ≡ token n ∷ []
unfolding scan advance
scan_token [] h = absurd h
scan_token (c ∷ s) h = let whole = scan_rest (c ∷ []) s h.1 in rw (h.0) whole

-- A template that is one token, with a name that no variable has and every object inherits, is not
-- refused: the task is the inherited member as a text.
pub inherited_rendered :
    (inherited : Text → Option Text) (basename dirname : Text → Text) (i : TaskPromptInput)
    (n w : Text)
    → IsName n
    → own (spread_variables i) n ≡ none
    → inherited n ≡ some w
    → i.task_template ≡ b'$' ∷ n
    → render_task_prompt inherited basename dirname i
      ≡ complete (build_skill_prefix basename dirname i.skill_paths i.surface) i w
unfolding render_task_prompt unresolved_tokens prompt_variables extract_template_tokens
    render_template render_pieces
inherited_rendered inherited basename dirname i n w named unset has at =
    let vars = prompt_variables inherited i in
    let skills = build_skill_prefix basename dirname i.skill_paths i.surface in
    let value : vars n ≡ some w =
      ap (λ o. coalesce o (inherited n))
        (fill-own inherited n w optionally_absent_placeholders (spread_variables i) has ∙ unset)
      ∙ has in
    let pieces : scan plain i.task_template ≡ token n ∷ [] =
      ap (scan plain) at ∙ scan_token n named in
    ap
      (λ ps.
        refuse_or (filter (λ m. not (defined (vars m))) (tokens_of ps))
          (complete skills i (render_pieces vars ps)))
      pieces
    ∙ ap
        (λ o.
          refuse_or (if not (defined o) then n ∷ [] else [])
            (complete skills i (written_as n o ++ [])))
        value
    ∙ ap (complete skills i) (append-nil w)

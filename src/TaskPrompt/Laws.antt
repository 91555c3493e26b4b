-- ===== src/TaskPrompt/Laws.antt =====
-- What a task prompt contains, and when it is refused.
use unit_ai_specialists.Common.{
  Bool, true, not, ◌≡◌, ◌≢◌, refl, ◌⊎◌, inl, inr, Option, List, [], ◌∷◌, filter, All, Bool-cases,
  defined,
}
use unit_ai_specialists.TaskPrompt.{
  TaskPromptInput, TaskPromptResult, unresolved_placeholders, prompt_variables, unresolved_tokens,
  complete, refuse_or, render_task_prompt,
}
use unit_ai_specialists.TaskPrompt.Skills.{build_skill_prefix}
use unit_ai_specialists.TaskPrompt.Template.{Text, extract_template_tokens, render_template}
use unit_ai_specialists.TaskPrompt.Template.Laws.{Fills, render-Fills}

none_missing :
    (p : Text → Bool) (ns : List Text) → filter (λ n. not (p n)) ns ≡ [] → All (λ n. p n ≡ true) ns
none_missing p [] h = tt
none_missing p (n ∷ ns) h = elim (Bool-cases (p n)) [
  | inl has ↦ (has, none_missing p ns (rw has at h))
  | inr lacks ↦ absurd (cc (rw lacks at h))
]

cases :
    (ns : List Text) (r : TaskPromptResult)
    → ((ns ≢ []) × (refuse_or ns r ≡ unresolved_placeholders ns))
      ⊎ ((ns ≡ []) × (refuse_or ns r ≡ r))
cases [] r = inr (refl, refl)
cases (n ∷ ns) r = inl ((λ e. cc e), refl)

-- A task prompt is refused with the tokens of its template that have no value, when there are any.
-- Otherwise the task that is completed with the rules, the execution context and the skills is the
-- template with every token replaced by its value and nothing else changed: no token of the
-- template is left, and a `$name` in a value is not replaced.
pub placeholders-Fills :
    (inherited : Text → Option Text) (basename dirname : Text → Text) (i : TaskPromptInput)
    → (let variables = prompt_variables inherited i in
        let missing =
          filter (λ n. not (defined (variables n))) (extract_template_tokens i.task_template) in
        let result = render_task_prompt inherited basename dirname i in
        ((missing ≢ []) × (result ≡ unresolved_placeholders missing))
        ⊎ ((task : Text) × Fills variables i.task_template task
            × (result
                ≡ complete (build_skill_prefix basename dirname i.skill_paths i.surface) i task)))
unfolding render_task_prompt unresolved_tokens
placeholders-Fills inherited basename dirname i =
    let variables = prompt_variables inherited i in
    let task = render_template i.task_template variables in
    let tokens = extract_template_tokens i.task_template in
    elim (cases (unresolved_tokens i.task_template variables)
      (complete (build_skill_prefix basename dirname i.skill_paths i.surface) i task)) [
        | inl refused ↦ inl refused
        | inr (known, through) ↦ inr (
          task,
          render-Fills variables i.task_template
              (none_missing (λ n. defined (variables n)) tokens known),
          through,
        )
      ]

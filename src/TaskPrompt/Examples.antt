-- ===== src/TaskPrompt/Examples.antt =====
-- The prompt of a task with a bead (src/specialist/task-prompt.ts).
use unit_ai_specialists.Common.{
  true, false, not, ◌≡◌, ◌≢◌, refl, ◌⊎◌, Option, none, some, [], ◌∷◌, filter, All, defined,
  if◌then◌else◌,
}
use unit_ai_specialists.Common.Text.{codes, same_codes, trim}
use unit_ai_specialists.TaskPrompt.{
  TaskPromptInput, block, optionally_absent_placeholders, resolved_prompt, unresolved_placeholders,
  prompt_variables, spread_variables, render_task_prompt, complete, rendered,
}
use unit_ai_specialists.TaskPrompt.Skills.{pi, build_skill_prefix, skill_names, is_skill_name}
use unit_ai_specialists.TaskPrompt.Skills.Laws.{Distinct, named, skill_names-Distinct}
use unit_ai_specialists.TaskPrompt.Template.{
  Text, render_template, extract_template_tokens, starts_name, continues_name,
}
use unit_ai_specialists.TaskPrompt.Template.Laws.{Fills, IsName}
use unit_ai_specialists.TaskPrompt.Laws.{placeholders-Fills}
use unit_ai_specialists.TaskPrompt.Inherited.{inherited_rendered}

abbrev input : TaskPromptInput
input = record {
  task_template = codes "Do $prompt in $cwd$writer_diff.";
  bare = false;
  skill_paths = codes "a.md" ∷ codes "b.md" ∷ codes "a.md" ∷ [];
  cwd = codes "/w";
  bead_id = codes "b-1";
  bead_context = codes "costs $cwd";
  boundary_instruction = codes "stay";
  fallback_prompt = [];
  pre_script_output = [];
  variables = [];
  reused_from_job_id = [];
  worktree_owner_job_id = [];
  gitnexus_summary = [];
  rules = block (codes "rules");
  append_execution_context = none;
  surface = pi;
}

-- What an object answers for a name that is not its own.
abbrev member : Text → Option Text
member n = if same_codes n (codes "constructor") then some (codes "function Object") else none

abbrev same : Text → Text
same t = t

prompt_of_input :
    render_task_prompt member same same input
    ≡ rendered (codes "/skill:a /skill:b\n\nDo costs $cwd\n\nstay in /w.\n\nrules")
unfolding render_task_prompt extract_template_tokens optionally_absent_placeholders
    build_skill_prefix is_skill_name trim render_template resolved_prompt
prompt_of_input = refl

placeholders-Fills_example :
    (let variables = prompt_variables member input in
      let missing =
        filter (λ n. not (defined (variables n))) (extract_template_tokens input.task_template) in
      let result = render_task_prompt member same same input in
      ((missing ≢ []) × (result ≡ unresolved_placeholders missing))
      ⊎ ((task : Text) × Fills variables input.task_template task
          × (result ≡ complete (build_skill_prefix same same input.skill_paths pi) input task)))
placeholders-Fills_example = placeholders-Fills member same same input

abbrev odd_input : TaskPromptInput
odd_input = record input { task_template = codes "$constructor" }

constructor-IsName : IsName (codes "constructor")
unfolding starts_name continues_name
constructor-IsName =
    (refl, (refl, (refl, (refl, (refl, (refl, (refl, (refl, (refl, (refl, (refl, tt)))))))))))

inherited_rendered_example :
    render_task_prompt member same same odd_input
    ≡ complete
        (build_skill_prefix same same odd_input.skill_paths pi)
        odd_input
        (codes "function Object")
unfolding spread_variables
inherited_rendered_example =
    inherited_rendered member same same odd_input (codes "constructor") (codes "function Object")
      constructor-IsName refl refl refl

two_names :
    skill_names [] (codes "a" ∷ codes "b" ∷ codes "a" ∷ []) ≡ some (codes "a" ∷ codes "b" ∷ [])
unfolding skill_names is_skill_name
two_names = refl

skill_names-Distinct_example :
    Distinct (codes "a" ∷ codes "b" ∷ [])
    × All
        (λ n. (named (codes "a" ∷ codes "b" ∷ []) n ≡ true) × (is_skill_name n ≡ true))
        (codes "a" ∷ codes "b" ∷ codes "a" ∷ [])
    × ((n : Text)
        → named (codes "a" ∷ codes "b" ∷ []) n ≡ true
        → named (codes "a" ∷ codes "b" ∷ codes "a" ∷ []) n ≡ true)
skill_names-Distinct_example =
    skill_names-Distinct (codes "a" ∷ codes "b" ∷ codes "a" ∷ []) (codes "a" ∷ codes "b" ∷ [])
      two_names

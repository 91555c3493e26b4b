-- ===== src/TaskPrompt.antt =====
-- `renderTaskPrompt` and `buildSkillPrefix` of src/specialist/task-prompt.ts: the assembly of the
-- first prompt of a task. The context of a bead, the boundary instruction, the mandatory rules and
-- the execution context are arguments; a text that may be absent is empty then, which the code does
-- not tell apart. An object is the list of its own entries, read from the first one.
pub mod Template
pub mod Skills
pub mod Laws
pub mod Inherited
mod Examples
use unit_ai_specialists.Common.{
  ℕ, leb, ◌==◌, Bool, true, false, not, ◌&&◌, ◌||◌, Option, none, some, List, [], ◌∷◌, ◌++◌, map,
  any, all, filter, defined, coalesce, String, if◌then◌else◌,
}
use unit_ai_specialists.Common.Text.{codes, trim, same_codes}
use unit_ai_specialists.TaskPrompt.Skills.{Surface, build_skill_prefix}
use unit_ai_specialists.TaskPrompt.Template.{Text, extract_template_tokens, render_template}

pub record Variable : Type 0 where
  pub key : Text
  pub value : Text

abbrev pub own : List Variable → Text → Option Text
own [] k = none
own (v ∷ vs) k = let rest = own vs k in if same_codes v.key k then some v.value else rest

-- `variables[name]`; `inherited` has what an object answers for a name that is not its own.
abbrev pub value_of : (Text → Option Text) → List Variable → Text → Option Text
value_of inherited vs k = coalesce (own vs k) (inherited k)

abbrev pub is_empty : Text → Bool
is_empty [] = true
is_empty (c ∷ s) = false

abbrev pub entry : String → Text → Variable
entry k v = record { key = codes k; value = v }

abbrev pub entry_if : String → Text → List Variable
entry_if k [] = []
entry_if k (c ∷ s) = entry k (c ∷ s) ∷ []

unfoldable pub optionally_absent_placeholders : List Text
optionally_absent_placeholders =
    codes "bead_context"
    ∷ codes "gitnexus_summary"
    ∷ codes "obligations_diff"
    ∷ codes "resolved_tool_contract"
    ∷ codes "reused_worktree_awareness"
    ∷ codes "reviewed_job_id"
    ∷ codes "writer_diff"
    ∷ codes "writer_job_id"
    ∷ []

-- The outcome of the mandatory rules: their block, no room for them, or another failure.
pub data Rules : Type 0 where
  block : Text → Rules
  over_budget : Rules
  unavailable : Rules

pub record TaskPromptInput : Type 0 where
  pub task_template : Text
  pub bare : Bool
  pub skill_paths : List Text
  pub cwd : Text
  pub bead_id : Text
  pub bead_context : Text
  pub boundary_instruction : Text
  pub fallback_prompt : Text
  pub pre_script_output : Text
  pub variables : List Variable
  pub reused_from_job_id : Text
  pub worktree_owner_job_id : Text
  pub gitnexus_summary : Text
  pub rules : Rules
  pub append_execution_context : Option (Text → Text)
  pub surface : Surface

unfoldable pub resolved_prompt : TaskPromptInput → Text
resolved_prompt i =
    if not (is_empty i.bead_id) && not (is_empty i.bead_context)
    then trim (i.bead_context ++ codes "\n\n" ++ i.boundary_instruction)
    else i.fallback_prompt

abbrev pub bead_variables : TaskPromptInput → List Variable
bead_variables i =
    if is_empty i.bead_id
    then []
    else entry "bead_context" (resolved_prompt i) ∷ entry "bead_id" i.bead_id ∷ []

-- The entries of the spreads, the later ones first since they win.
unfoldable pub spread_variables : TaskPromptInput → List Variable
spread_variables i =
    bead_variables i
    ++ i.variables
    ++ entry_if "reused_from_job_id" i.reused_from_job_id
    ++ entry_if "worktree_owner_job_id" i.worktree_owner_job_id
    ++ entry_if "gitnexus_summary" i.gitnexus_summary
    ++ entry "prompt" (resolved_prompt i)
      ∷ entry "cwd" i.cwd
      ∷ entry "pre_script_output" i.pre_script_output
      ∷ entry "bead_id" i.bead_id
      ∷ []

-- A name without a value is given the empty one.
unfoldable pub fill_absent : (Text → Option Text) → List Text → List Variable → List Variable
fill_absent inherited [] vs = vs
fill_absent inherited (k ∷ ks) vs =
    fill_absent inherited ks
      (if defined (value_of inherited vs k) then vs else record { key = k; value = [] } ∷ vs)

unfoldable pub prompt_variables : (Text → Option Text) → TaskPromptInput → Text → Option Text
unfolding fill_absent spread_variables
prompt_variables inherited i =
    value_of inherited (fill_absent inherited optionally_absent_placeholders (spread_variables i))

pub data TaskPromptResult : Type 0 where
  rendered : Text → TaskPromptResult
  unresolved_placeholders : List Text → TaskPromptResult
  rules_over_budget : TaskPromptResult
  invalid_skill_name : TaskPromptResult

abbrev pub with_rules : Rules → Text → Text
with_rules (block b) task = if is_empty (trim b) then task else task ++ codes "\n\n" ++ b
with_rules _ task = task

abbrev pub with_context : Option (Text → Text) → Text → Text
with_context none task = task
with_context (some append) task = append task

-- The prompt behind its skills; the last step may fail on a name.
abbrev pub finish : Option Text → Text → TaskPromptResult
finish none task = invalid_skill_name
finish (some prefix) task = rendered (prefix ++ task)

abbrev pub within_budget : Rules → Bool
within_budget over_budget = false
within_budget _ = true

abbrev pub extended : TaskPromptInput → Text → Text
extended i task =
    if i.bare then task else with_context i.append_execution_context (with_rules i.rules task)

-- What follows the check of the placeholders.
unfoldable pub complete : Option Text → TaskPromptInput → Text → TaskPromptResult
complete skills i task =
    if not i.bare && not (within_budget i.rules)
    then rules_over_budget
    else finish skills (extended i task)

unfoldable pub unresolved_tokens : Text → (Text → Option Text) → List Text
unresolved_tokens template variables =
    filter (λ n. not (defined (variables n))) (extract_template_tokens template)

abbrev pub refuse_or : List Text → TaskPromptResult → TaskPromptResult
refuse_or [] r = r
refuse_or (n ∷ ns) r = unresolved_placeholders (n ∷ ns)

unfoldable pub render_task_prompt :
    (Text → Option Text) → (Text → Text) → (Text → Text) → TaskPromptInput → TaskPromptResult
unfolding complete unresolved_tokens prompt_variables
render_task_prompt inherited basename dirname i =
    let variables = prompt_variables inherited i in
    refuse_or (unresolved_tokens i.task_template variables) (
      complete (build_skill_prefix basename dirname i.skill_paths i.surface) i
        (render_template i.task_template variables))

-- ===== src/Node/Members.antt =====
-- The members of a node as `NodeSupervisor` keeps them, and the health of their context windows.
use unit_ai_specialists.Common.{
  ℕ, ltb, leb, Bool, true, false, Option, none, some, String, if◌then◌else◌,
}

pub record NodeMemberEntry : Type 0 where
  pub member_id : String
  pub job_id : Option String
  pub specialist : String
  pub model : Option String
  pub role : Option String
  pub status : String
  pub enabled : Bool
  pub last_seen_output_hash : Option String
  pub generation : ℕ
  pub worktree_path : Option String
  pub parent_member_id : Option String
  pub replaced_member_id : Option String
  pub phase_id : Option String

pub data ContextHealth : Type 0 where
  healthy monitor warn critical unknown : ContextHealth

unfoldable pub to_context_health : Option ℕ → ContextHealth
to_context_health none = unknown
to_context_health (some pct) =
    if ltb pct 60
    then healthy
    else if leb pct 75
    then monitor
    else if leb pct 90
    then warn
    else critical

abbrev pub is_critical : ContextHealth → Bool
is_critical critical = true
is_critical _ = false

-- ===== src/Epic/Reconciler/Audit.antt =====
-- The audit of an epic's transitions in its status text, src/specialist/epic-lifecycle.ts, and the text
-- of an abandoned epic, src/specialist/epic-reconciler.ts.
use unit_ai_specialists.Common.{
  ℕ, Bool, true, false, Option, none, some, List, [], ◌∷◌, ◌++◌, String, filter,
}
use unit_ai_specialists.Common.Dict.{Dict, get, set}
use unit_ai_specialists.Epic.Lifecycle.{EpicState}
use unit_ai_specialists.Epic.Database.{
  AuditEntry, Item, no_object, audited, Json, raw, transitions, state, flag, StatusJson, object,
  EpicRunRecord,
}

abbrev is_object : Item → Bool
is_object (no_object text) = false
is_object _ = true

-- `parsed.transitions`, when it is an array.
abbrev pub previous_transitions : Option Json → List Item
previous_transitions (some (transitions items)) = filter is_object items
previous_transitions _ = []

-- The object of the text, or the fallback.
abbrev pub parsed_object : Option StatusJson → Dict Json
parsed_object (some (object entries)) = entries
parsed_object _ = ("transitions", transitions []) ∷ []

unfoldable pub append_epic_transition_audit : Option StatusJson → AuditEntry → Dict Json
append_epic_transition_audit json entry =
    let entries = parsed_object json in
    set "transitions"
      (transitions (previous_transitions (get "transitions" entries) ++ audited entry ∷ [])) entries

abbrev pub json_of : Option EpicRunRecord → Option StatusJson
json_of none = none
json_of (some r) = some r.status_json

abbrev pub audit_of : EpicState → ℕ → String → Bool → AuditEntry
audit_of from now reason forced = record {
  from = from;
  to = EpicState.abandoned;
  at_ms = now;
  reason = reason;
  trigger = "sp epic abandon";
  forced = forced;
}

unfoldable pub build_abandoned_status_json :
    ℕ → Option EpicRunRecord → String → EpicState → String → Bool → StatusJson
unfolding append_epic_transition_audit
build_abandoned_status_json now epic id from reason forced = object (
    set "forced" (flag forced) (
      set "reason" (raw reason) (
        set "status" (state EpicState.abandoned) (
          set "epic_id" (raw id)
            (append_epic_transition_audit (json_of epic) (audit_of from now reason forced))))))

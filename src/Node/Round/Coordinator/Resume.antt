-- ===== src/Node/Round/Coordinator/Resume.antt =====
-- What a round does with the output of the coordinator, and its resumption.
use unit_ai_specialists.Common.{
  ℕ, suc, ◌-◌, ltb, Bool, true, false, not, ◌&&◌, Option, none, some, [], ◌∷◌, String, is_text,
  truthy, if◌then◌else◌,
}
use unit_ai_specialists.Common.Text.{codes, trim}
use unit_ai_specialists.Node.States.{NodeState, same_state, is_terminal_node_status}
use unit_ai_specialists.Node.Round.{
  Node, World, Options, Strategy, pr, manual, Flow, onward, thrown,
  coordinator_done_manual_completion, coordinator_done, coordinator_output_observed,
  coordinator_resumed_waiting_for_actions, raised, coordinator_output_received,
  coordinator_resume_skipped, coordinator_resumed, coordinator_resume_state, status_of, break_after,
  emit, transition, hash_output, same_hash,
}
use unit_ai_specialists.Node.Round.Coordinator.{restart_coordinator}

-- `!output || output.trim().length === 0`.
unfoldable pub is_blank : Option String → Bool
is_blank none = true
is_blank (some s) = elim (trim (codes s)) [ [] ↦ true | c ∷ cs ↦ false ]

unfoldable pub close_done : Strategy → Node → Flow
close_done manual n = transition NodeState.waiting coordinator_done_manual_completion n
close_done pr n = transition NodeState.done coordinator_done n

unfoldable pub finish_done : Options → World → Option String → Node → Flow
unfolding close_done
finish_done o w output n =
    if is_blank output
    then restart_coordinator o w "coordinator_empty_output" n
    else break_after (close_done o.strategy n)

abbrev pub text_of : Option String → String
text_of none = ""
text_of (some s) = s

abbrev pub hear_output : Option String → ℕ → String → Node → Node
hear_output hash now output n =
    emit (coordinator_output_received output)
      (record n { output_hash = hash; last_coordinator_output_at_ms = now })

abbrev pub wake : Node → Flow
wake n =
    if same_state (status_of n) NodeState.waiting
    then transition NodeState.running coordinator_output_observed n
    else onward n

unfoldable pub observe_output : World → Option String → Node → Flow
observe_output w output n =
    let hash = hash_output w none output in
    if truthy output && not (same_hash hash n.output_hash)
    then wake (hear_output hash w.now (text_of output) n)
    else onward n

-- The `finally` of a resumption.
abbrev pub end_resume : Node → Node
end_resume n = record n {
  resume_pending = false;
  coordinator_resumes_in_flight = n.coordinator_resumes_in_flight - 1;
}

abbrev pub count_degraded : Node → Node
count_degraded n = record n {
  degraded_resume_count =
      if same_state (status_of n) NodeState.degraded
      then suc n.degraded_resume_count
      else n.degraded_resume_count;
}

abbrev pub settle_resume : Node → Flow
settle_resume n =
    if same_state (status_of n) NodeState.running
    then transition NodeState.waiting coordinator_resumed_waiting_for_actions n
    else onward n

unfoldable pub send_resume : Option String → ℕ → Node → Flow
send_resume (some message) updates n = thrown (raised message) (end_resume n)
send_resume none updates n = settle_resume (
    emit (coordinator_resumed updates)
      (emit (coordinator_resume_state false) (end_resume (count_degraded n))))

unfoldable pub should_resume : Option String → ℕ → Node → Bool
should_resume status updates n =
    ltb 0 updates
    && is_text status "waiting"
    && not (is_terminal_node_status (status_of n))
    && not n.resume_pending
    && ltb n.coordinator_resumes_in_flight 2
    && truthy n.coordinator_job_id
    && n.has_coordinator_controller

unfoldable pub resume_coordinator : World → Option String → ℕ → Node → Flow
unfolding send_resume should_resume
resume_coordinator w status updates n =
    if should_resume status updates n
    then send_resume w.resume_throws updates (
        emit (coordinator_resume_state true) (record n {
          resume_pending = true;
          coordinator_resumes_in_flight = suc n.coordinator_resumes_in_flight;
        }))
    else if ltb 0 updates
    then onward (emit (coordinator_resume_skipped updates) n)
    else onward n

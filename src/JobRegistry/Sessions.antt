-- ===== src/JobRegistry/Sessions.antt =====
-- The asynchronous methods of src/specialist/jobRegistry.ts: each is split at its await, and its
-- second part writes the job object that it holds.
pub mod Frames
pub mod Resurrection
use unit_ai_specialists.Common.{
  ℕ, zero, suc, ◌+◌, ◌-◌, ◌==◌, ◌<◌, ◌≡◌, ◌≢◌, refl, sym, ◌∙◌, ap, ◌⊎◌, inl, inr, Bool, true, false,
  not, ◌||◌, Option, none, some, List, [], ◌∷◌, ◌++◌, String, str_eq, eq_iff, eq_refl, length,
  if◌then◌else◌, arith, Bool-cases, Option-cases, ==_iff, ==_refl,
}
use unit_ai_specialists.Common.Dict.{get}
use unit_ai_specialists.JobRegistry.{
  Status, running, done, error, cancelled, waiting, JobState, Registry, Call, killed, closed,
  steered, resumed, is_running, is_waiting, is_cancelled, is_done, or_else, object_at, find, write,
  with_ref, with_job, Method, append_output, set_current_event, set_resume_fn, complete, fail,
  cancel, writes, makes, call, register, delete_job, Meta,
}

pub data Refusal : Type 0 where
  job_not_found no_resume_function not_ready : Refusal
  not_waiting not_running : Status → Refusal

-- An asynchronous method is refused, or it awaits with the reference of its job in hand.
pub data Begun : Type 0 where
  refused : Refusal → Begun
  awaiting : ℕ → Registry → Begun

-- What the awaited function did.
pub data Outcome : Type 0 where
  gave : List ℕ → Outcome
  threw : String → Outcome

resume_on : String → ℕ → Option String → Registry → Begun
unfolding write
resume_on message r none reg = refused no_resume_function
resume_on message r (some fn) reg =
    awaiting r
      (record (write r (record (reg.heap r) { status = running; current_event = "starting" }) reg) {
        calls = reg.calls ++ resumed fn message ∷ [];
      })

follow_up_on : String → Option ℕ → Registry → Begun
unfolding resume_on
follow_up_on message none reg = refused job_not_found
follow_up_on message (some r) reg =
    if not (is_waiting (reg.heap r).status)
    then refused (not_waiting (reg.heap r).status)
    else resume_on message r (reg.heap r).resume_fn reg

unfoldable pub follow_up_begin : String → String → Registry → Begun
unfolding follow_up_on
follow_up_begin id message reg = follow_up_on message (get id reg.jobs) reg

abbrev pub resumed_with : Outcome → JobState → JobState
resumed_with (gave output) j = record j {
  output_buffer = output;
  status = waiting;
  current_event = "waiting";
}
resumed_with (threw message) j = record j { status = error; error = some message }

-- `followUp` from its await on writes the object that it holds.
unfoldable pub follow_up_finish : ℕ → Outcome → Registry → Registry
unfolding write
follow_up_finish r outcome reg = write r (resumed_with outcome (reg.heap r)) reg

abbrev closing : Option String → List Call
closing none = []
closing (some fn) = closed fn ∷ []

close_on : Option ℕ → Registry → Begun
close_on none reg = refused job_not_found
close_on (some r) reg =
    if not (is_waiting (reg.heap r).status)
    then refused (not_waiting (reg.heap r).status)
    else awaiting r (record reg { calls = reg.calls ++ closing (reg.heap r).close_fn })

-- `closeSession`, which is `finalize` as well, up to its await.
unfoldable pub close_session_begin : String → Registry → Begun
unfolding close_on
close_session_begin id reg = close_on (get id reg.jobs) reg

abbrev pub closed_with : Outcome → ℕ → JobState → JobState
closed_with (gave _) now j = record j {
  status = done;
  current_event = "done";
  ended_at_ms = some now;
}
closed_with (threw message) now j = j

unfoldable pub close_session_finish : ℕ → Outcome → ℕ → Registry → Registry
unfolding write
close_session_finish r outcome now reg = write r (closed_with outcome now (reg.heap r)) reg

steer_with : String → ℕ → Option String → Registry → Begun
steer_with message r none reg = refused not_ready
steer_with message r (some fn) reg =
    awaiting r (record reg { calls = reg.calls ++ steered fn message ∷ [] })

steer_on : String → Option ℕ → Registry → Begun
unfolding steer_with
steer_on message none reg = refused job_not_found
steer_on message (some r) reg =
    if not (is_running (reg.heap r).status)
    then refused (not_running (reg.heap r).status)
    else steer_with message r (reg.heap r).steer_fn reg

unfoldable pub steer_begin : String → String → Registry → Begun
unfolding steer_on
steer_begin id message reg = steer_on message (get id reg.jobs) reg

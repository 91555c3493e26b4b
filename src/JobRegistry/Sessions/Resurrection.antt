-- ===== src/JobRegistry/Sessions/Resurrection.antt =====
-- What happens to a job that has ended, in src/specialist/jobRegistry.ts.
use unit_ai_specialists.Common.{
  ℕ, ◌≡◌, refl, ◌∙◌, ap, inl, inr, Bool, true, false, some, List, String, arith, Bool-cases,
  ==_refl,
}
use unit_ai_specialists.Common.Dict.{get}
use unit_ai_specialists.JobRegistry.{
  Status, cancelled, waiting, JobState, Registry, is_running, is_cancelled, find, write, Method,
  append_output, set_current_event, set_meta, set_bead_id, set_kill_fn, set_steer_fn, set_resume_fn,
  complete, fail, cancel, writes, call,
}
use unit_ai_specialists.JobRegistry.Polling.{find-call}
use unit_ai_specialists.JobRegistry.Sessions.Frames.{call_frame, follow_up_frame}
use unit_ai_specialists.JobRegistry.Sessions.{
  awaiting, Outcome, gave, follow_up_begin, resumed_with, follow_up_finish,
}

-- The methods by which a run reports.
abbrev pub is_report : Method → Bool
is_report (append_output _) = true
is_report (set_current_event _) = true
is_report (complete _ _) = true
is_report (fail _ _) = true
is_report _ = false

abbrev pub status_after : Method → Status → Status
status_after (set_resume_fn _ _) s = waiting
status_after (cancel _) s = cancelled
status_after _ s = s

writes_not_running :
    (m : Method) (j : JobState)
    → is_running j.status ≡ false
    → (is_report m ≡ true → writes m j ≡ j) × ((writes m j).status ≡ status_after m j.status)
unfolding writes
writes_not_running (append_output text) j s = (λ h. rw s refl, rw s refl)
writes_not_running (set_current_event event) j s = (λ h. rw s refl, rw s refl)
writes_not_running (set_meta backend model) j s = (λ h. absurd (ground arith), refl)
writes_not_running (set_bead_id bead) j s = (λ h. absurd (ground arith), refl)
writes_not_running (set_kill_fn fn) j s = (
  λ h. absurd (ground arith),
  elim (Bool-cases (is_cancelled j.status)) [ inl c ↦ rw c refl | inr c ↦ rw c refl ],
)
writes_not_running (set_steer_fn fn) j s = (λ h. absurd (ground arith), refl)
writes_not_running (set_resume_fn resume close) j s = (λ h. absurd (ground arith), refl)
writes_not_running (complete result now) j s = (λ h. rw s refl, rw s refl)
writes_not_running (fail message now) j s = (λ h. rw s refl, rw s refl)
writes_not_running (cancel now) j s = (λ h. absurd (ground arith), refl)

-- A job that is not running ignores what a late run reports, and its status changes only by
-- registering a resume function, to waiting, and by cancelling.
pub late_reports_ignored :
    (m : Method) (id : String) (reg : Registry) (j : JobState)
    → find id reg ≡ some j
    → is_running j.status ≡ false
    → (is_report m ≡ true → find id (call m id reg) ≡ some j)
      × ((k : JobState) × (find id (call m id reg) ≡ some k) × (k.status ≡ status_after m j.status))
late_reports_ignored m id reg j e s =
    let (same, status) = writes_not_running m j s in
    let found : find id (call m id reg) ≡ some (writes m j) = find-call m id reg j e in
    (λ h. found ∙ ap some (same h), (writes m j, found, status))

find_ref :
    (id : String) (reg : Registry) (r : ℕ)
    → get id reg.jobs ≡ some r
    → find id reg ≡ some (reg.heap r)
find_ref id reg r e = rw e refl

finish_find :
    (id : String) (r : ℕ) (outcome : Outcome) (reg : Registry)
    → get id reg.jobs ≡ some r
    → find id (follow_up_finish r outcome reg) ≡ some (resumed_with outcome (reg.heap r))
unfolding follow_up_finish write
finish_find id r outcome reg e = rw (e, ==_refl r) refl

-- A job that is cancelled while a follow-up of it is awaited does not stay cancelled: when the
-- awaited output comes the job is waiting again, with its end time set.
pub cancel_resurrected :
    (id message : String) (reg mid : Registry) (r now : ℕ) (output : List ℕ)
    → follow_up_begin id message reg ≡ awaiting r mid
    → let stopped = call (cancel now) id mid in
      let finished = follow_up_finish r (gave output) stopped in
      ((j : JobState) × (find id stopped ≡ some j) × (j.status ≡ cancelled))
      × ((k : JobState) × (find id finished ≡ some k)
          × (k.status ≡ waiting)
          × (k.ended_at_ms ≡ some now)
          × (k.resume_fn ≡ (mid.heap r).resume_fn))
unfolding writes
cancel_resurrected id message reg mid r now output h =
    let (at, jobs, next, _) = follow_up_frame id message reg mid r h in
    let there : get id mid.jobs ≡ some r = rw jobs at in
    let stopped : Registry = call (cancel now) id mid in
    let still : get id stopped.jobs ≡ some r = rw (call_frame (cancel now) id mid).0 there in
    let found : find id stopped ≡ some (writes (cancel now) (mid.heap r)) =
      find-call (cancel now) id mid (mid.heap r) (find_ref id mid r there) in
    let object : stopped.heap r ≡ writes (cancel now) (mid.heap r) =
      cc (found, find_ref id stopped r still) in
    (
      (writes (cancel now) (mid.heap r), found, refl),
      (
        resumed_with (gave output) (stopped.heap r),
        finish_find id r (gave output) stopped still,
        refl,
        ap (λ j. j.ended_at_ms) object,
        ap (λ j. j.resume_fn) object,
      ),
    )

-- ===== src/JobRegistry/Examples.antt =====
-- Runs of the job registry at concrete inputs (src/specialist/jobRegistry.ts).
use unit_ai_specialists.Common.{
  ℕ, ◌≡◌, ◌≢◌, ◌⊎◌, refl, true, false, Option, none, some, [], ◌∷◌, String, arith, eq_iff,
}
use unit_ai_specialists.Common.Dict.{get}
use unit_ai_specialists.JobRegistry.{
  Method, delete_job, JobState, Registry, Status, running, cancelled, waiting, done, Meta, cancel,
  RunResult, find, register, call,
}
use unit_ai_specialists.JobRegistry.Polling.{
  JobSnapshot, snapshot_of, snapshot, append_all, joined, deltas_join,
}
use unit_ai_specialists.JobRegistry.Sessions.{
  Outcome, steer_begin, close_session_begin, gave, awaiting, follow_up_begin, follow_up_finish,
  close_session_finish,
}
use unit_ai_specialists.JobRegistry.Sessions.Resurrection.{cancel_resurrected}
use unit_ai_specialists.JobRegistry.Runs.{Later, empty, Reach, here, next, registers}
use unit_ai_specialists.JobRegistry.Isolation.{reachable_isolated}

abbrev job : Status → Option String → JobState
job status fn = record {
  id = "j1";
  status = status;
  output_buffer = 104 ∷ 105 ∷ [];
  current_event = "text";
  backend = "b";
  model = "m";
  specialist_version = "?";
  started_at_ms = 10;
  ended_at_ms = none;
  error = none;
  kill_fn = none;
  steer_fn = none;
  resume_fn = fn;
  close_fn = fn;
  bead_id = none;
}

abbrev holding : JobState → Registry
holding j = record { jobs = ("j1", 0) ∷ []; heap = λ r. j; next = 1; calls = [] }

abbrev runs : Registry
runs = holding (job running none)

found : (j : JobState) → find "j1" (holding j) ≡ some j
unfolding get
found j = refl

polled : snapshot "j1" 0 15 runs ≡ some (snapshot_of 0 15 (job running none))
unfolding snapshot get
polled = refl

deltas_join_example :
    (t : JobSnapshot) × (snapshot "j1" 2 20 (append_all ((33 ∷ []) ∷ (34 ∷ []) ∷ []) "j1" runs)
      ≡ some t)
    × (t.delta ≡ joined ((33 ∷ []) ∷ (34 ∷ []) ∷ []))
    × (t.status ≡ running)
deltas_join_example =
    deltas_join "j1" 0 15 20 runs (snapshot_of 0 15 (job running none)) ((33 ∷ []) ∷ (34 ∷ []) ∷ [])
      polled refl

abbrev result : RunResult
result = record {
  output = 111 ∷ [];
  backend = "b";
  model = "m";
  specialist_version = "1";
  bead_id = none;
}

abbrev waits : Registry
waits = holding (job waiting (some "fn"))

abbrev resuming : Registry
resuming = elim (follow_up_begin "j1" "more" waits) [ awaiting r t ↦ t | _ ↦ waits ]

resumes : follow_up_begin "j1" "more" waits ≡ awaiting 0 resuming
unfolding follow_up_begin get
resumes = refl

cancel_resurrected_example :
    ((j : JobState) × (find "j1" (call (cancel 40) "j1" resuming) ≡ some j)
      × (j.status ≡ cancelled))
    × ((k : JobState) × (find "j1"
            (follow_up_finish 0 (gave (111 ∷ [])) (call (cancel 40) "j1" resuming))
          ≡ some k)
        × (k.status ≡ waiting)
        × (k.ended_at_ms ≡ some 40)
        × (k.resume_fn ≡ (resuming.heap 0).resume_fn))
cancel_resurrected_example = cancel_resurrected "j1" "more" waits resuming 0 40 (111 ∷ []) resumes

abbrev meta : Meta
meta = record { backend = "b"; model = "m"; specialist_version = none }

abbrev blank : Registry
blank = empty (λ r. job done none)

abbrev two : Registry
two = register "j2" meta 20 (register "j1" meta 10 blank)

ran : Reach two
ran =
    next (next (here (λ r. job done none)) (registers "j1" meta 10 blank))
      (registers "j2" meta 20 (register "j1" meta 10 blank))

apart : (job running none).id ≢ "j2"
apart e = let clash : false ≡ true = (eq_iff "j1" "j2").1 e in ground arith

reachable_isolated_example :
    ((m : Method) → find "j2" (call m "j1" two) ≡ find "j2" two)
    × ((meta : Meta) (now : ℕ) → find "j2" (register "j1" meta now two) ≡ find "j2" two)
    × (find "j2" (delete_job "j1" two) ≡ find "j2" two)
    × ((message : String) (r : ℕ) (t : Registry)
        → (follow_up_begin "j1" message two ≡ awaiting r t)
          ⊎ (close_session_begin "j1" two ≡ awaiting r t)
          ⊎ (steer_begin "j1" message two ≡ awaiting r t)
        → find "j2" t ≡ find "j2" two)
    × ((r : ℕ) (then_on : Registry) (outcome : Outcome) (now : ℕ)
        → get "j1" two.jobs ≡ some r
        → Later two then_on
        → (find "j2" (follow_up_finish r outcome then_on) ≡ find "j2" then_on)
          × (find "j2" (close_session_finish r outcome now then_on) ≡ find "j2" then_on))
reachable_isolated_example = reachable_isolated two "j1" "j2" ran apart

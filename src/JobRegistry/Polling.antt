-- ===== src/JobRegistry/Polling.antt =====
-- `snapshot` of src/specialist/jobRegistry.ts and the polling of a running job by cursor.
use mathlib.Core.List.{append-nil, append_assoc}
use unit_ai_specialists.Common.{
  ℕ, zero, suc, ◌-◌, ◌≡◌, refl, sym, ◌∙◌, ap, inl, inr, Option, none, some, List, [], ◌∷◌, ◌++◌,
  String, length, if◌then◌else◌, Option-cases, ==_refl,
}
use unit_ai_specialists.Common.Dict.{get}
use unit_ai_specialists.JobRegistry.{
  Status, running, JobState, Registry, Call, is_done, or_else, object_at, find, write, with_ref,
  with_job, Method, append_output, writes, makes, call,
}

pub record JobSnapshot : Type 0 where
  pub job_id : String
  pub status : Status
  pub output : List ℕ
  pub delta : List ℕ
  pub next_cursor : ℕ
  pub current_event : String
  pub backend : String
  pub model : String
  pub specialist_version : String
  pub duration_ms : ℕ
  pub error : Option String
  pub bead_id : Option String

-- `slice(cursor)`, for a cursor that is not negative.
unfoldable pub drop : ℕ → List ℕ → List ℕ
drop zero xs = xs
drop (suc n) [] = []
drop (suc n) (x ∷ xs) = drop n xs

-- The clock is not behind the start of the job.
abbrev pub snapshot_of : ℕ → ℕ → JobState → JobSnapshot
snapshot_of cursor now j = record {
  job_id = j.id;
  status = j.status;
  output = if is_done j.status then j.output_buffer else [];
  delta = drop cursor j.output_buffer;
  next_cursor = length j.output_buffer;
  current_event = j.current_event;
  backend = j.backend;
  model = j.model;
  specialist_version = j.specialist_version;
  duration_ms = or_else j.ended_at_ms now - j.started_at_ms;
  error = j.error;
  bead_id = j.bead_id;
}

snapshot_on : ℕ → ℕ → Option JobState → Option JobSnapshot
snapshot_on cursor now none = none
snapshot_on cursor now (some j) = some (snapshot_of cursor now j)

unfoldable pub snapshot : String → ℕ → ℕ → Registry → Option JobSnapshot
unfolding snapshot_on
snapshot id cursor now reg = snapshot_on cursor now (find id reg)

find_after : (JobState → JobState) → Option JobState → Option JobState
find_after f none = none
find_after f (some j) = some (f j)

find-with_ref :
    (f : JobState → JobState) (calls : JobState → List Call) (o : Option ℕ) (reg : Registry)
    → object_at (with_ref f calls o reg) o ≡ find_after f (object_at reg o)
unfolding with_ref write find_after
find-with_ref f calls none reg = refl
find-with_ref f calls (some r) reg = rw (==_refl r) refl

jobs-with_ref :
    (f : JobState → JobState) (calls : JobState → List Call) (o : Option ℕ) (reg : Registry)
    → (with_ref f calls o reg).jobs ≡ reg.jobs
unfolding with_ref write
jobs-with_ref f calls none reg = refl
jobs-with_ref f calls (some r) reg = refl

-- A method is found again in the job that it wrote.
pub find-call :
    (m : Method) (id : String) (reg : Registry) (j : JobState)
    → find id reg ≡ some j
    → find id (call m id reg) ≡ some (writes m j)
unfolding call with_job find_after
find-call m id reg j e =
    rw (jobs-with_ref (writes m) (makes m) (get id reg.jobs) reg)
      (find-with_ref (writes m) (makes m) (get id reg.jobs) reg ∙ ap (find_after (writes m)) e)

drop-length : (xs ys : List ℕ) → drop (length xs) (xs ++ ys) ≡ ys
unfolding drop
drop-length [] ys = refl
drop-length (x ∷ xs) ys = drop-length xs ys

abbrev pub joined : List (List ℕ) → List ℕ
joined [] = []
joined (text ∷ texts) = text ++ joined texts

-- The outputs come one after the other.
unfoldable pub append_all : List (List ℕ) → String → Registry → Registry
append_all [] id reg = reg
append_all (text ∷ texts) id reg = append_all texts id (call (append_output text) id reg)

append_all-find :
    (texts : List (List ℕ)) (id : String) (reg : Registry) (j : JobState)
    → find id reg ≡ some j
    → j.status ≡ running
    → find id (append_all texts id reg)
      ≡ some (record j { output_buffer = j.output_buffer ++ joined texts })
unfolding append_all writes
append_all-find [] id reg j e s = rw (append-nil j.output_buffer) e
append_all-find (text ∷ texts) id reg j e s =
    let wrote : find id (call (append_output text) id reg)
        ≡ some (record j { output_buffer = j.output_buffer ++ text }) =
      find-call (append_output text) id reg j e ∙ (rw s refl) in
    append_all-find texts id (call (append_output text) id reg)
      (record j { output_buffer = j.output_buffer ++ text }) wrote s
    ∙ ap (λ b. some (record j { output_buffer = b }))
        (append_assoc j.output_buffer text (joined texts))

-- Polling a running job by cursor loses and repeats nothing: what a snapshot gives from the cursor
-- of the one before is the outputs in between, joined in order.
pub deltas_join :
    (id : String) (cursor now now' : ℕ) (reg : Registry) (s : JobSnapshot) (texts : List (List ℕ))
    → snapshot id cursor now reg ≡ some s
    → s.status ≡ running
    → (t : JobSnapshot) × (snapshot id s.next_cursor now' (append_all texts id reg) ≡ some t)
      × (t.delta ≡ joined texts)
      × (t.status ≡ running)
unfolding snapshot snapshot_on
deltas_join id cursor now now' reg s texts e r = elim (Option-cases (find id reg)) [
  | inl n ↦ absurd (cc)
  | inr (j, f) ↦
      let made : some (snapshot_of cursor now j) ≡ some s = (rw f at e) in
      let taken : snapshot_of cursor now j ≡ s = cc (made) in
      let runs : j.status ≡ running = ap (λ x. x.status) taken ∙ r in
      let at : s.next_cursor ≡ length j.output_buffer = ap (λ x. x.next_cursor) (sym taken) in
      let after : JobState = record j { output_buffer = j.output_buffer ++ joined texts } in
      (
        snapshot_of (length j.output_buffer) now' after,
        rw (at, append_all-find texts id reg j f runs) refl,
        drop-length j.output_buffer (joined texts),
        runs,
      )
]

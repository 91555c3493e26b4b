-- ===== src/JobRegistry.antt =====
-- src/specialist/jobRegistry.ts: the registry of in-process jobs. The map holds references to job
-- objects, which a method may still hold after its await, when the map has changed; an asynchronous
-- method is split there. A text is the list of its code units, a function a handle, and what the
-- registry calls is kept in `calls`; the function that `cancel` calls does not throw.
pub mod Sessions
pub mod Polling
pub mod Runs
pub mod Isolation
mod Examples
use unit_ai_specialists.Common.{
  ℕ, zero, suc, ◌+◌, ◌-◌, ◌==◌, Bool, true, false, not, ◌≡◌, Option, none, some, List, [], ◌∷◌,
  ◌++◌, String, truthy, length, if◌then◌else◌,
}
use unit_ai_specialists.Common.Dict.{Dict, get, set, delete}

pub data Status : Type 0 where
  running done error cancelled waiting : Status

pub record JobState : Type 0 where
  pub id : String
  pub status : Status
  pub output_buffer : List ℕ
  pub current_event : String
  pub backend : String
  pub model : String
  pub specialist_version : String
  pub started_at_ms : ℕ
  pub ended_at_ms : Option ℕ
  pub error : Option String
  pub kill_fn : Option String
  pub steer_fn : Option String
  pub resume_fn : Option String
  pub close_fn : Option String
  pub bead_id : Option String

pub data Call : Type 0 where
  killed closed : String → Call
  steered resumed : String → String → Call

-- `heap` gives the object at a reference below `next`.
pub record Registry : Type 0 where
  pub jobs : Dict ℕ
  pub heap : ℕ → JobState
  pub next : ℕ
  pub calls : List Call

abbrev pub is_running : Status → Bool
is_running running = true
is_running _ = false

abbrev pub is_waiting : Status → Bool
is_waiting waiting = true
is_waiting _ = false

abbrev pub is_cancelled : Status → Bool
is_cancelled cancelled = true
is_cancelled _ = false

abbrev pub is_done : Status → Bool
is_done done = true
is_done _ = false

abbrev pub or_else : {A : Type 0} → Option A → A → A
or_else none a = a
or_else (some a) b = a

abbrev pub object_at : Registry → Option ℕ → Option JobState
object_at reg none = none
object_at reg (some r) = some (reg.heap r)

abbrev pub find : String → Registry → Option JobState
find id reg = object_at reg (get id reg.jobs)

unfoldable pub write : ℕ → JobState → Registry → Registry
write r j reg = record reg { heap = λ k. if k == r then j else reg.heap k }

pub record Meta : Type 0 where
  pub backend : String
  pub model : String
  pub specialist_version : Option String

unfoldable pub register : String → Meta → ℕ → Registry → Registry
unfolding write
register id meta now reg =
    let j : JobState = record {
      id = id;
      status = running;
      output_buffer = [];
      current_event = "starting";
      backend = meta.backend;
      model = meta.model;
      specialist_version = or_else meta.specialist_version "?";
      started_at_ms = now;
      ended_at_ms = none;
      error = none;
      kill_fn = none;
      steer_fn = none;
      resume_fn = none;
      close_fn = none;
      bead_id = none;
    } in
    record (write reg.next j reg) { jobs = set id reg.next reg.jobs; next = suc reg.next }

-- `const job = this.jobs.get(id); if (!job) return`, then what is written and called.
with_ref : (JobState → JobState) → (JobState → List Call) → Option ℕ → Registry → Registry
unfolding write
with_ref f calls none reg = reg
with_ref f calls (some r) reg = record (write r (f (reg.heap r)) reg) {
  calls = reg.calls ++ calls (reg.heap r);
}

unfoldable pub with_job :
    (JobState → JobState) → (JobState → List Call) → String → Registry → Registry
unfolding with_ref
with_job f calls id reg = with_ref f calls (get id reg.jobs) reg

abbrev pub quiet : JobState → List Call
quiet j = []

pub record RunResult : Type 0 where
  pub output : List ℕ
  pub backend : String
  pub model : String
  pub specialist_version : String
  pub bead_id : Option String

-- The methods that write the job object, by what they write.
pub data Method : Type 0 where
  append_output : List ℕ → Method
  set_current_event : String → Method
  set_meta : String → String → Method
  set_bead_id : String → Method
  set_kill_fn set_steer_fn : String → Method
  set_resume_fn : String → String → Method
  complete : RunResult → ℕ → Method
  fail : String → ℕ → Method
  cancel : ℕ → Method

abbrev kept_text : String → String → String
kept_text new old = if truthy (some new) then new else old

abbrev kept_bead : Option String → Option String → Option String
kept_bead new old = if truthy new then new else old

unfoldable pub writes : Method → JobState → JobState
writes (append_output text) j =
    if is_running j.status then record j { output_buffer = j.output_buffer ++ text } else j
writes (set_current_event event) j =
    if is_running j.status then record j { current_event = event } else j
writes (set_meta backend model) j = record j {
  backend = kept_text backend j.backend;
  model = kept_text model j.model;
}
writes (set_bead_id bead) j = record j { bead_id = some bead }
writes (set_kill_fn fn) j = if is_cancelled j.status then j else record j { kill_fn = some fn }
writes (set_steer_fn fn) j = record j { steer_fn = some fn }
writes (set_resume_fn resume close) j = record j {
  resume_fn = some resume;
  close_fn = some close;
  status = waiting;
  current_event = "waiting";
}
writes (complete result now) j = if not (is_running j.status) then j else record j {
  status = done;
  output_buffer = result.output;
  current_event = "done";
  backend = result.backend;
  model = result.model;
  specialist_version = result.specialist_version;
  ended_at_ms = some now;
  bead_id = kept_bead result.bead_id j.bead_id;
}
writes (fail message now) j = if not (is_running j.status) then j else record j {
  status = error;
  error = some message;
  current_event = "error";
  ended_at_ms = some now;
}
writes (cancel now) j = record j {
  status = cancelled;
  current_event = "cancelled";
  ended_at_ms = some now;
}

abbrev killing : Option String → List Call
killing none = []
killing (some fn) = killed fn ∷ []

abbrev pub makes : Method → JobState → List Call
makes (set_kill_fn fn) j = if is_cancelled j.status then killed fn ∷ [] else []
makes (cancel now) j = killing j.kill_fn
makes _ j = []

unfoldable pub call : Method → String → Registry → Registry
unfolding with_job writes
call m id reg = with_job (writes m) (makes m) id reg

unfoldable pub delete_job : String → Registry → Registry
delete_job id reg = record reg { jobs = delete id reg.jobs }

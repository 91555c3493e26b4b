-- ===== src/StaleJobs/Laws.antt =====
-- Why a job is reported as stale.
use unit_ai_specialists.Common.{
  ℕ, ◌≤◌, ltb, leb, Bool, true, false, not, ◌&&◌, ◌≡◌, refl, Option, none, some, List, [], ◌∷◌,
  ◌++◌, Memᴰ, String, filter, All, All-append, All-Memᴰ, All-filter_self, if_both, arith,
}
use unit_ai_specialists.Common.Sorting.{SortedBy, SortedBy-sort_by, All-sort_by, All-filter}
use unit_ai_specialists.StaleJobs.{
  StatusRow, Snapshot, Process, StaleReason, dead_pid, orphaned_keep_alive, dead_toolchain,
  terminal_alive, Candidate, is_active_status, is_terminal_status, is_waiting_status, age_of,
  orphaned_parts, orphaned_run, is_recent, only_if, candidate, judge_unread, judge_snapshot,
  judge_process, judge_active, judge_ended, judge_terminal, push_some, collect_active,
  collect_terminal, collect_stale_specialist_jobs, is_starting_status,
}

module _ (now min_keep_alive min_terminal : ℕ) (proc : ℕ → Process)
    (activity : String → Option ℕ) where
  -- What each reason stands for.
  abbrev pub Justified : StatusRow → ℕ → StaleReason → Type 0
  Justified row pid dead_pid =
      (is_active_status row.status ≡ true)
      × ((proc pid).is_dead ≡ true)
      × (min_keep_alive ≤ age_of now row)
  Justified row pid orphaned_keep_alive = is_waiting_status row.status ≡ true
  Justified row pid dead_toolchain =
      (is_active_status row.status ≡ true)
      × (min_keep_alive ≤ age_of now row)
      × (is_recent now min_keep_alive (activity row.id) ≡ false)
  Justified row pid terminal_alive =
      (is_terminal_status row.status ≡ true) × (min_terminal ≤ age_of now row)

  -- A candidate names its row and the process of it, and its reason holds.
  abbrev pub Sound : StatusRow → Candidate → Type 0
  Sound row c = (c.job_id ≡ row.id) × (row.pid ≡ some c.pid) × Justified row c.pid c.reason

  abbrev SoundIf : StatusRow → Option Candidate → Type 0
  SoundIf row none = Unit {0}
  SoundIf row (some c) = Sound row c

  only_if-Sound :
      (row : StatusRow) (b : Bool) (c : Candidate)
      → (b ≡ true → Sound row c)
      → SoundIf row (only_if b c)
  only_if-Sound row b c h = if_both (SoundIf row) b {x = some c} {y = none} h (λ _. tt)

  module _ (row : StatusRow) (pid : ℕ) (own : row.pid ≡ some pid) where
    unread-Sound :
        is_active_status row.status ≡ true
        → SoundIf row (judge_unread now min_keep_alive row pid (proc pid))
    unfolding judge_unread candidate
    unread-Sound active =
        let p = proc pid in
        let age = age_of now row in
        let orphaned = is_waiting_status row.status && orphaned_parts p.raw_ppid p.raw_cmdline in
        let kept = candidate row pid p.raw_cwd age orphaned_keep_alive in
        if_both (SoundIf row) (p.is_dead && leb min_keep_alive age)
          {x = some (candidate row pid none age dead_pid)} {y = only_if orphaned kept}
          (λ t. (refl, own, (active, ground (arith, t), ground (arith, t))))
          (λ _. only_if-Sound row orphaned kept (λ t. (refl, own, ground (arith, t))))

    snapshot-Sound :
        (s : Snapshot)
        → is_active_status row.status ≡ true
        → SoundIf row (judge_snapshot now min_keep_alive (activity row.id) row pid s)
    unfolding judge_snapshot candidate
    snapshot-Sound s active =
        let age = age_of now row in
        let idle =
          not (is_starting_status row.status)
          && leb min_keep_alive age
          && not (is_recent now min_keep_alive (activity row.id)) in
        let stuck = candidate row pid s.cwd age dead_toolchain in
        if_both (SoundIf row)
          (is_waiting_status row.status && orphaned_run s && leb min_keep_alive age)
          {x = some (candidate row pid s.cwd age orphaned_keep_alive)} {y = only_if idle stuck}
          (λ t. (refl, own, ground (arith, t)))
          (λ _.
            only_if-Sound row idle stuck
              (λ t. (refl, own, (active, ground (arith, t), ground (arith, t)))))

    process-Sound :
        (o : Option Snapshot)
        → is_active_status row.status ≡ true
        → SoundIf row (judge_process now min_keep_alive (activity row.id) row pid (proc pid) o)
    process-Sound none active = unread-Sound active
    process-Sound (some s) active = snapshot-Sound s active

    ended-Sound :
        (o : Option Snapshot)
        → is_terminal_status row.status ≡ true
        → min_terminal ≤ age_of now row
        → SoundIf row (judge_ended now row pid (proc pid) o)
    unfolding candidate
    ended-Sound none ended old =
        only_if-Sound row (not (proc pid).is_dead)
          (candidate row pid (proc pid).raw_cwd (age_of now row) terminal_alive)
          (λ _. (refl, own, (ended, old)))
    ended-Sound (some s) ended old = (refl, own, (ended, old))

  active-Sound :
      (row : StatusRow) (o : Option ℕ)
      → row.pid ≡ o
      → is_active_status row.status ≡ true
      → SoundIf row (judge_active now min_keep_alive proc activity row o)
  unfolding judge_active
  active-Sound row none own active = tt
  active-Sound row (some pid) own active =
      if_both (SoundIf row) (ltb 0 pid)
        {x = judge_process now min_keep_alive (activity row.id) row pid (proc pid)
          (proc pid).snapshot}
        {y = none} (λ _. process-Sound row pid own (proc pid).snapshot active) (λ _. tt)

  terminal-Sound :
      (row : StatusRow) (o : Option ℕ)
      → row.pid ≡ o
      → is_terminal_status row.status ≡ true
      → SoundIf row (judge_terminal now min_terminal proc row o)
  unfolding judge_terminal
  terminal-Sound row none own ended = tt
  terminal-Sound row (some pid) own ended =
      if_both (SoundIf row) (ltb 0 pid && leb min_terminal (age_of now row))
        {x = judge_ended now row pid (proc pid) (proc pid).snapshot} {y = none}
        (λ t. ended-Sound row pid own (proc pid).snapshot ended (ground (arith, t))) (λ _. tt)

  -- A candidate that is sound for some of these rows.
  abbrev pub Reported : List StatusRow → Candidate → Type 0
  Reported rows c = (row : StatusRow) × Memᴰ row rows × Sound row c

  pushed-Reported :
      (statuses : List StatusRow) (row : StatusRow) (o : Option Candidate) (rest : List Candidate)
      → Memᴰ row statuses
      → SoundIf row o
      → All (Reported statuses) rest
      → All (Reported statuses) (push_some o rest)
  pushed-Reported statuses row none rest m h k = k
  pushed-Reported statuses row (some c) rest m h k = ((row, m, h), k)

  active-Reported :
      (statuses rows : List StatusRow)
      → All (λ r. Memᴰ r statuses) rows
      → All (λ r. is_active_status r.status ≡ true) rows
      → All (Reported statuses) (collect_active now min_keep_alive proc activity rows)
  unfolding collect_active
  active-Reported statuses [] m h = tt
  active-Reported statuses (row ∷ rows) m h =
      pushed-Reported statuses row (judge_active now min_keep_alive proc activity row row.pid)
        (collect_active now min_keep_alive proc activity rows) m.0
        (active-Sound row row.pid refl h.0) (active-Reported statuses rows m.1 h.1)

  terminal-Reported :
      (statuses rows : List StatusRow)
      → All (λ r. Memᴰ r statuses) rows
      → All (λ r. is_terminal_status r.status ≡ true) rows
      → All (Reported statuses) (collect_terminal now min_terminal proc rows)
  unfolding collect_terminal
  terminal-Reported statuses [] m h = tt
  terminal-Reported statuses (row ∷ rows) m h =
      pushed-Reported statuses row (judge_terminal now min_terminal proc row row.pid)
        (collect_terminal now min_terminal proc rows) m.0 (terminal-Sound row row.pid refl h.0)
        (terminal-Reported statuses rows m.1 h.1)

  -- The report is in the order of the process ids, and each job in it has a status row with that id
  -- and process: a job said to be dead or idle is active and was not updated within the window, a
  -- dead one has no process, an idle one has no recent activity that is known, an orphan is waiting,
  -- and a job said to have ended alive is terminal and was not updated within its own window.
  pub stale-Reported :
      (statuses : List StatusRow)
      → (let report =
            collect_stale_specialist_jobs now min_keep_alive min_terminal proc activity statuses in
          SortedBy (λ c. c.pid) report × All (Reported statuses) report)
  unfolding collect_stale_specialist_jobs
  stale-Reported statuses =
      let key = λ (c : Candidate). c.pid in
      let is_live = λ (r : StatusRow). is_active_status r.status in
      let is_over = λ (r : StatusRow). is_terminal_status r.status in
      let live = filter is_live statuses in
      let over = filter is_over statuses in
      let mine = All-Memᴰ statuses in
      let found = collect_active now min_keep_alive proc activity live in
      let left = collect_terminal now min_terminal proc over in
      (
        SortedBy-sort_by key (found ++ left),
        All-sort_by key (Reported statuses) (found ++ left) (
            All-append (Reported statuses) found left
              (active-Reported statuses live
                (All-filter (λ r. Memᴰ r statuses) is_live statuses mine)
                (All-filter_self is_live statuses))
              (terminal-Reported statuses over
                (All-filter (λ r. Memᴰ r statuses) is_over statuses mine)
                (All-filter_self is_over statuses))),
      )

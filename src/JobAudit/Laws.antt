-- ===== src/JobAudit/Laws.antt =====
-- What an audit of dead jobs cancels and reports.
use unit_ai_specialists.Common.{
  ℕ, ◌-◌, Bool, true, false, not, ◌≡◌, refl, sym, ap, ◌∙◌, inl, inr, List, [], ◌∷◌, ◌++◌, map,
  String, str_eq, filter, any, if◌then◌else◌, Bool-cases, if_both,
}
use mathlib.Core.List.{append-nil, append_assoc}
use unit_ai_specialists.JobAudit.{
  JobRow, pid_of, list_stale_specialist_jobs, cancel_row, mark_specialist_job_cancelled,
  DeadJobAuditFinding, AuditState, declare_dead, audit_row, audit_rows, audit_dead_jobs,
}

abbrev pub reason_text : String
reason_text = "container-restart-orphan"

-- The finding for a row, and a row that is among the findings.
abbrev pub finding_of : ℕ → JobRow → DeadJobAuditFinding
finding_of now row = record {
  job_id = row.job_id;
  pid = pid_of row.pid;
  reason = reason_text;
  age_ms = now - row.updated_at_ms;
}

abbrev pub is_dead : (ℕ → Bool) → JobRow → Bool
is_dead is_pid_alive row = not (is_pid_alive (pid_of row.pid))

abbrev pub named_by : String → List JobRow → Bool
named_by id rows = any (λ r. str_eq id r.job_id) rows

-- The rows of the table with every named one cancelled.
abbrev pub cancel_named : ℕ → List JobRow → List JobRow → List JobRow
cancel_named now rows table =
    map (λ row. if named_by row.job_id rows then cancel_row now reason_text row else row) table

map-ext :
    (f g : JobRow → JobRow) (xs : List JobRow) → ((x : JobRow) → f x ≡ g x) → map f xs ≡ map g xs
map-ext f g [] h = refl
map-ext f g (x ∷ xs) h = rw (h x, map-ext f g xs h) refl

map-map : (f g : JobRow → JobRow) (xs : List JobRow) → map f (map g xs) ≡ map (λ x. f (g x)) xs
map-map f g [] = refl
map-map f g (x ∷ xs) = ap (λ l. f (g x) ∷ l) (map-map f g xs)

-- Cancelling one row and then others is cancelling all of them.
cancel_twice :
    (now : ℕ) (rows : List JobRow) (first row : JobRow)
    → (let x = (if str_eq row.job_id first.job_id then cancel_row now reason_text row else row) in
        if named_by x.job_id rows then cancel_row now reason_text x else x)
      ≡ (if named_by row.job_id (first ∷ rows) then cancel_row now reason_text row else row)
cancel_twice now rows first row = elim (Bool-cases (str_eq row.job_id first.job_id)) [
  | inl same ↦ rw same (again (named_by row.job_id rows))
  | inr other ↦ rw other refl
]
  where
    again :
        (b : Bool)
        → (if b
            then cancel_row now reason_text (cancel_row now reason_text row)
            else cancel_row now reason_text row)
          ≡ cancel_row now reason_text row
    again true = refl
    again false = refl

abbrev pub dead_of : (ℕ → Bool) → List JobRow → List JobRow
dead_of alive rows = filter (is_dead alive) rows

-- What an audit leaves of its rows, by the rows whose process is dead.
abbrev reported : ℕ → List JobRow → AuditState → AuditState
reported now dead a = record a { found = a.found ++ map (finding_of now) dead }

cancel_named-none : (now : ℕ) (table : List JobRow) → cancel_named now [] table ≡ table
cancel_named-none now [] = refl
cancel_named-none now (row ∷ table) = ap (λ l. row ∷ l) (cancel_named-none now table)

marked_then :
    (now : ℕ) (first : JobRow) (rows table : List JobRow)
    → cancel_named now rows (mark_specialist_job_cancelled now first.job_id reason_text table)
      ≡ cancel_named now (first ∷ rows) table
unfolding mark_specialist_job_cancelled
marked_then now first rows table =
    map-map _ _ table ∙ map-ext _ _ table (cancel_twice now rows first)

kept_row : (dry : Bool) (now : ℕ) (row : JobRow) (a : AuditState) → audit_row true dry now row a ≡ a
unfolding audit_row
kept_row dry now row a = refl

declared_table :
    (now : ℕ) (row : JobRow) (a : AuditState)
    → (audit_row false false now row a).table
      ≡ mark_specialist_job_cancelled now row.job_id reason_text a.table
unfolding audit_row declare_dead
declared_table now row a = refl

declared_found :
    (dry : Bool) (now : ℕ) (row : JobRow) (a : AuditState)
    → (audit_row false dry now row a).found ≡ a.found ++ finding_of now row ∷ []
unfolding audit_row declare_dead
declared_found true now row a = refl
declared_found false now row a = refl

dead_skip :
    (alive : ℕ → Bool) (row : JobRow) (rows : List JobRow)
    → alive (pid_of row.pid) ≡ true
    → dead_of alive (row ∷ rows) ≡ dead_of alive rows
dead_skip alive row rows lives = rw lives refl

dead_take :
    (alive : ℕ → Bool) (row : JobRow) (rows : List JobRow)
    → alive (pid_of row.pid) ≡ false
    → dead_of alive (row ∷ rows) ≡ row ∷ dead_of alive rows
dead_take alive row rows dead = rw dead refl

-- An audit that writes cancels every row that the dead ones name, and no other.
audit_rows-table :
    (alive : ℕ → Bool) (now : ℕ) (rows : List JobRow) (a : AuditState)
    → (audit_rows alive false now rows a).table ≡ cancel_named now (dead_of alive rows) a.table
unfolding audit_rows
audit_rows-table alive now [] a = sym (cancel_named-none now a.table)
audit_rows-table alive now (row ∷ rows) a = elim (Bool-cases (alive (pid_of row.pid))) [
  | inl lives ↦
      ap (λ b. (audit_rows alive false now rows (audit_row b false now row a)).table) lives
      ∙ ap (λ x. (audit_rows alive false now rows x).table) (kept_row false now row a)
      ∙ audit_rows-table alive now rows a
      ∙ ap (λ l. cancel_named now l a.table) (sym (dead_skip alive row rows lives))
  | inr dead ↦
      ap (λ b. (audit_rows alive false now rows (audit_row b false now row a)).table) dead
      ∙ audit_rows-table alive now rows (audit_row false false now row a)
      ∙ ap (cancel_named now (dead_of alive rows)) (declared_table now row a)
      ∙ marked_then now row (dead_of alive rows) a.table
      ∙ ap (λ l. cancel_named now l a.table) (sym (dead_take alive row rows dead))
]

-- The findings of both modes.
audit_rows-found :
    (alive : ℕ → Bool) (dry : Bool) (now : ℕ) (rows : List JobRow) (a : AuditState)
    → (audit_rows alive dry now rows a).found ≡ a.found ++ map (finding_of now) (dead_of alive rows)
unfolding audit_rows
audit_rows-found alive dry now [] a = sym (append-nil a.found)
audit_rows-found alive dry now (row ∷ rows) a = elim (Bool-cases (alive (pid_of row.pid))) [
  | inl lives ↦
      ap (λ b. (audit_rows alive dry now rows (audit_row b dry now row a)).found) lives
      ∙ ap (λ x. (audit_rows alive dry now rows x).found) (kept_row dry now row a)
      ∙ audit_rows-found alive dry now rows a
      ∙ ap (λ l. a.found ++ map (finding_of now) l) (sym (dead_skip alive row rows lives))
  | inr dead ↦
      ap (λ b. (audit_rows alive dry now rows (audit_row b dry now row a)).found) dead
      ∙ audit_rows-found alive dry now rows (audit_row false dry now row a)
      ∙ ap (λ l. l ++ map (finding_of now) (dead_of alive rows)) (declared_found dry now row a)
      ∙ append_assoc a.found (finding_of now row ∷ []) (map (finding_of now) (dead_of alive rows))
      ∙ ap (λ l. a.found ++ map (finding_of now) l) (sym (dead_take alive row rows dead))
]

dry_rows-table :
    (alive : ℕ → Bool) (now : ℕ) (rows : List JobRow) (a : AuditState)
    → (audit_rows alive true now rows a).table ≡ a.table
unfolding audit_rows audit_row declare_dead
dry_rows-table alive now [] a = refl
dry_rows-table alive now (row ∷ rows) a =
    dry_rows-table alive now rows (audit_row (alive (pid_of row.pid)) true now row a)
    ∙ if_both (λ (x : AuditState). x.table ≡ a.table) (alive (pid_of row.pid)) {x = a}
        {y = declare_dead true now row a} (λ _. refl) (λ _. refl)

-- A dry run finds what an audit would cancel and writes nothing; the audit itself cancels, in the
-- table, exactly the rows that it reports.
pub audit_cancels :
    (alive : ℕ → Bool) (now min_age : ℕ) (table : List JobRow)
    → (let dead = dead_of alive (list_stale_specialist_jobs now min_age table) in
        ((audit_dead_jobs alive true now min_age table).table ≡ table)
        × ((audit_dead_jobs alive true now min_age table).found ≡ map (finding_of now) dead)
        × ((audit_dead_jobs alive false now min_age table).found ≡ map (finding_of now) dead)
        × ((audit_dead_jobs alive false now min_age table).table ≡ cancel_named now dead table))
unfolding audit_dead_jobs
audit_cancels alive now min_age table =
    let rows = list_stale_specialist_jobs now min_age table in
    let start : AuditState = record {
      table = table;
      found = [];
      cancelled_count = 0;
      declared = [];
    } in
    (
      dry_rows-table alive now rows start,
      audit_rows-found alive true now rows start,
      audit_rows-found alive false now rows start,
      audit_rows-table alive now rows start,
    )

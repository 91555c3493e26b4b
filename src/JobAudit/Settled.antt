-- ===== src/JobAudit/Settled.antt =====
-- A second audit has nothing left to do.
use unit_ai_specialists.Common.{
  ℕ, zero, suc, ◌≤◌, Bool, true, false, ◌≡◌, refl, sym, ap, ◌∙◌, subst, inl, inr, List, [], ◌∷◌,
  map, Memᴰ, eq_refl, filter, length, All, All-at, All-mono, All-Memᴰ, All-filter_self,
  if◌then◌else◌, Bool-cases, if_both, arith,
}
use unit_ai_specialists.Common.Sorting.{
  sort_by, Memᴰ-sort_by, length-sort_by, All-sort_by, All-filter, All-of_filter,
}
use unit_ai_specialists.JobAudit.{
  JobRow, is_stale, take, positive_pid, pid_of, list_stale_specialist_jobs, cancel_row,
  audit_dead_jobs,
}
use unit_ai_specialists.JobAudit.Laws.{
  reason_text, is_dead, dead_of, named_by, cancel_named, finding_of, audit_cancels,
}

Memᴰ-filter :
    (p : JobRow → Bool) {x : JobRow} (xs : List JobRow)
    → Memᴰ x xs
    → p x ≡ true
    → Memᴰ x (filter p xs)
Memᴰ-filter p {x} xs m =
    All-at (λ y. p y ≡ true → Memᴰ y (filter p xs)) m
      (All-of_filter (λ y. Memᴰ y (filter p xs)) p xs (All-Memᴰ (filter p xs)))

take-all : (n : ℕ) (rows : List JobRow) → length rows ≤ n → take n rows ≡ rows
take-all zero [] h = refl
take-all zero (row ∷ rows) h = absurd (omega arith)
take-all (suc n) [] h = refl
take-all (suc n) (row ∷ rows) h = ap (λ l. row ∷ l) (take-all n rows (omega arith))

All-take {κ} : (P : JobRow → Type κ) (n : ℕ) (rows : List JobRow) → All P rows → All P (take n rows)
All-take P zero rows h = tt
All-take P (suc n) [] h = tt
All-take P (suc n) (row ∷ rows) h = (h.0, All-take P n rows h.1)

All-map {κ} :
    (P : JobRow → Type κ) (f : JobRow → JobRow) (rows : List JobRow)
    → All (λ r. P (f r)) rows
    → All P (map f rows)
All-map P f [] h = tt
All-map P f (row ∷ rows) h = (h.0, All-map P f rows h.1)

named_by_self : (rows : List JobRow) → All (λ r. named_by r.job_id rows ≡ true) rows
named_by_self [] = tt
named_by_self (row ∷ rows) = (
  ground (arith, eq_refl row.job_id),
  All-mono (λ (r : JobRow) (k : named_by r.job_id rows ≡ true). ground arith) rows
      (named_by_self rows),
)

named_by-Memᴰ :
    {row : JobRow} (rows : List JobRow) → Memᴰ row rows → named_by row.job_id rows ≡ true
named_by-Memᴰ rows m = All-at (λ r. named_by r.job_id rows ≡ true) m (named_by_self rows)

module _ (alive : ℕ → Bool) (now min_age : ℕ) (table : List JobRow)
    (few : length (filter (is_stale now min_age) table) ≤ 200) where
  -- A row that a later audit would see as stale has a live process.
  abbrev Spared : JobRow → Type 0
  Spared row =
      is_stale now min_age row ≡ true → positive_pid row ≡ true → alive (pid_of row.pid) ≡ true

  listed :
      (row : JobRow)
      → Memᴰ row table
      → is_stale now min_age row ≡ true
      → positive_pid row ≡ true
      → Memᴰ row (list_stale_specialist_jobs now min_age table)
  unfolding list_stale_specialist_jobs
  listed row m stale positive =
      let stales = filter (is_stale now min_age) table in
      let sorted = sort_by (λ (r : JobRow). r.updated_at_ms) stales in
      let whole : take 200 sorted ≡ sorted = take-all 200 sorted (
        subst (λ k. k ≤ 200) (sym (length-sort_by (λ (r : JobRow). r.updated_at_ms) stales)) few) in
      let key = λ (r : JobRow). r.updated_at_ms in
      let m' : Memᴰ row (take 200 sorted) =
        subst (λ l. Memᴰ row l) (sym whole)
          (Memᴰ-sort_by key row stales (Memᴰ-filter (is_stale now min_age) table m stale)) in
      Memᴰ-filter positive_pid (take 200 sorted) m' positive

  dead_named :
      (row : JobRow)
      → Memᴰ row table
      → is_stale now min_age row ≡ true
      → positive_pid row ≡ true
      → alive (pid_of row.pid) ≡ false
      → named_by row.job_id (dead_of alive (list_stale_specialist_jobs now min_age table)) ≡ true
  dead_named row m stale positive dead =
      let rows = list_stale_specialist_jobs now min_age table in
      named_by-Memᴰ (dead_of alive rows)
        (Memᴰ-filter (is_dead alive) rows (listed row m stale positive) (ground (arith, dead)))

  cancelled-Spared : (row : JobRow) → Spared (cancel_row now reason_text row)
  unfolding is_stale
  cancelled-Spared row stale = absurd (cc stale)

  row-Spared :
      (row : JobRow)
      → Memᴰ row table
      → Spared (
          if named_by row.job_id (dead_of alive (list_stale_specialist_jobs now min_age table))
          then cancel_row now reason_text row
          else row)
  row-Spared row m =
      if_both Spared
        (named_by row.job_id (dead_of alive (list_stale_specialist_jobs now min_age table)))
        {x = cancel_row now reason_text row} {y = row} (λ _. cancelled-Spared row)
        (λ unnamed stale positive. elim (Bool-cases (alive (pid_of row.pid))) [
          | inl lives ↦ lives
          | inr dead ↦ absurd (ground (arith, unnamed, dead_named row m stale positive dead))
        ])

none_dead :
    (alive : ℕ → Bool) (rows : List JobRow)
    → All (λ r. alive (pid_of r.pid) ≡ true) rows
    → dead_of alive rows ≡ []
none_dead alive [] h = refl
none_dead alive (row ∷ rows) h = rw (h.0) (none_dead alive rows h.1)

All-both {ℓ κ} :
    (P : JobRow → Type ℓ) (Q : JobRow → Type κ) (xs : List JobRow)
    → All P xs
    → All Q xs
    → All (λ x. P x × Q x) xs
All-both P Q [] h k = tt
All-both P Q (x ∷ xs) h k = ((h.0, k.0), All-both P Q xs h.1 k.1)

-- Every row that an audit lists has a live process, where every stale row has.
listed_alive :
    (alive : ℕ → Bool) (now min_age : ℕ) (table : List JobRow)
    → All
        (λ row.
          is_stale now min_age row ≡ true → positive_pid row ≡ true → alive (pid_of row.pid) ≡ true)
        table
    → All (λ row. alive (pid_of row.pid) ≡ true) (list_stale_specialist_jobs now min_age table)
unfolding list_stale_specialist_jobs
listed_alive alive now min_age table h =
    let key = λ (r : JobRow). r.updated_at_ms in
    let stale = is_stale now min_age in
    let Ready = λ (row : JobRow). positive_pid row ≡ true → alive (pid_of row.pid) ≡ true in
    let spared = All-filter _ stale table h in
    let ready : All Ready (filter stale table) =
      All-mono (λ (row : JobRow) k. k.0 k.1) (filter stale table)
        (All-both _ _ (filter stale table) spared (All-filter_self stale table)) in
    let cut = take 200 (sort_by key (filter stale table)) in
    let kept : All Ready cut =
      All-take Ready 200 (sort_by key (filter stale table))
        (All-sort_by key Ready (filter stale table) ready) in
    All-mono (λ (row : JobRow) k. k.0 k.1) (filter positive_pid cut)
      (All-both Ready _ (filter positive_pid cut) (All-filter Ready positive_pid cut kept)
        (All-filter_self positive_pid cut))

-- With at most 200 stale jobs, which is what one audit looks at, a second audit at the same time
-- with the same probe finds nothing: the first one left no stale job with a dead process.
pub audit_settles :
    (alive : ℕ → Bool) (now min_age : ℕ) (table : List JobRow)
    → length (filter (is_stale now min_age) table) ≤ 200
    → (audit_dead_jobs alive false now min_age
        (audit_dead_jobs alive false now min_age table).table).found
      ≡ []
audit_settles alive now min_age table few =
    let after = (audit_dead_jobs alive false now min_age table).table in
    let dead = dead_of alive (list_stale_specialist_jobs now min_age table) in
    let is_after : after ≡ cancel_named now dead table =
      (audit_cancels alive now min_age table).3 in
    let spared =
      All-map (Spared alive now min_age table few)
        (λ row. if named_by row.job_id dead then cancel_row now reason_text row else row) table
        (All-mono (λ row m. row-Spared alive now min_age table few row m) table (All-Memᴰ table)) in
    let none_left = none_dead alive (list_stale_specialist_jobs now min_age after) (
      listed_alive alive now min_age after
        (subst (λ t. All (Spared alive now min_age table few) t) (sym is_after) spared)) in
    (audit_cancels alive now min_age after).2 ∙ ap (map (finding_of now)) none_left

-- ===== src/Epic/Stored/Laws.antt =====
-- What is written back for an epic (src/specialist/epic-readiness.ts).
use unit_ai_specialists.Common.{
  ℕ, ◌==◌, ◌≡◌, ◌≢◌, refl, sym, ◌∙◌, ap, inl, inr, true, false, not, ◌||◌, some, String, str_eq,
  eq_iff, eq_refl, arith, defined, if◌then◌else◌, Bool-cases, Option-cases,
}
use unit_ai_specialists.Common.Dict.{get-set}
use unit_ai_specialists.Epic.Lifecycle.{EpicState, state_index}
use unit_ai_specialists.Epic.Readiness.Chains.{Alive}
use unit_ai_specialists.Epic.Readiness.Derive.{
  EpicReadinessSummary, evaluate_epic_readiness_summary,
}
use unit_ai_specialists.Epic.Database.{EpicRunRecord, Database, read_epic_run, upsert_epic_run}
use unit_ai_specialists.Epic.Stored.{
  status_or_open, record_of, recovered_from_legacy_failure, load_epic_readiness_summary,
  sync_epic_state_from_readiness,
}

pub read-upsert :
    (id : String) (r : EpicRunRecord) (db : Database)
    → read_epic_run id (upsert_epic_run r db)
      ≡ (if str_eq r.epic_id id then some r else read_epic_run id db)
unfolding read_epic_run upsert_epic_run
read-upsert id r db = get-set id r.epic_id r db.runs

same_state : (a b : EpicState) → (state_index a == state_index b) ≡ true → a ≡ b
same_state a b h = ground arith

module _ (s : EpicReadinessSummary) (now : ℕ) (db : Database) where
  sync_writes :
      (s.can_transition
          || recovered_from_legacy_failure s
          || not (defined (read_epic_run s.epic_id db)))
        ≡ true
      → read_epic_run s.epic_id (sync_epic_state_from_readiness s now db).1 ≡ some (record_of s now)
  unfolding sync_epic_state_from_readiness
  sync_writes h = rw (h, read-upsert, eq_refl s.epic_id) refl

  sync_keeps :
      (s.can_transition
          || recovered_from_legacy_failure s
          || not (defined (read_epic_run s.epic_id db)))
        ≡ false
      → (sync_epic_state_from_readiness s now db).1 ≡ db
  unfolding sync_epic_state_from_readiness
  sync_keeps h = rw h refl

  sync_other :
      (other : String)
      → s.epic_id ≢ other
      → read_epic_run other (sync_epic_state_from_readiness s now db).1 ≡ read_epic_run other db
  unfolding sync_epic_state_from_readiness
  sync_other other d =
      elim (Bool-cases (
        s.can_transition
        || recovered_from_legacy_failure s
        || not (defined (read_epic_run s.epic_id db)))) [
          | inl h ↦ rw (h, read-upsert) (ground (arith, d, eq_iff s.epic_id other))
          | inr h ↦ rw h refl
        ]

  sync_reads :
      s.persisted_state ≡ status_or_open (read_epic_run s.epic_id db)
      → s.can_transition ≡ not (state_index s.next_state == state_index s.persisted_state)
      → (r : EpicRunRecord) × (read_epic_run s.epic_id (sync_epic_state_from_readiness s now db).1
          ≡ some r)
        × (r.status ≡ s.next_state)
  sync_reads persisted can =
      elim (Bool-cases (
        s.can_transition
        || recovered_from_legacy_failure s
        || not (defined (read_epic_run s.epic_id db)))) [
          | inl h ↦ (record_of s now, sync_writes h, refl)
          | inr h ↦ elim (Option-cases (read_epic_run s.epic_id db)) [
            | inl n ↦ absurd (ground (arith, h, n))
            | inr (r, e) ↦
                let stays : (state_index s.next_state == state_index s.persisted_state) ≡ true =
                  ground (arith, h, can) in
                (
                  r,
                  rw (sync_keeps h) e,
                  sym (
                      same_state s.next_state s.persisted_state stays
                      ∙ persisted
                      ∙ ap status_or_open e),
                )
          ]
        ]

-- After an epic is synced from its loaded readiness its stored state is the next state of the summary,
-- a new epic's too, and no other epic is touched.
pub sync_stores :
    (alive : Alive) (id other : String) (now : ℕ) (db : Database)
    → id ≢ other
    → let s = load_epic_readiness_summary alive id db in
      let after = (sync_epic_state_from_readiness s now db).1 in
      ((r : EpicRunRecord) × (read_epic_run id after ≡ some r) × (r.status ≡ s.next_state))
      × (read_epic_run other after ≡ read_epic_run other db)
unfolding load_epic_readiness_summary evaluate_epic_readiness_summary
sync_stores alive id other now db d =
    let s : EpicReadinessSummary = load_epic_readiness_summary alive id db in
    (sync_reads s now db refl refl, sync_other s now db other d)

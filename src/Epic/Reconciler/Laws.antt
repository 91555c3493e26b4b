-- ===== src/Epic/Reconciler/Laws.antt =====
-- What a repair does to the stored state (src/specialist/epic-reconciler.ts).
use unit_ai_specialists.Common.{
  ℕ, ◌≡◌, refl, inl, inr, true, false, not, any, filter, [], ◌∷◌, some, String, eq_refl, Bool-cases,
}
use unit_ai_specialists.Common.Dict.{Dict}
use unit_ai_specialists.Job.{HostProbe}
use unit_ai_specialists.Epic.Readiness.Chains.{Alive}
use unit_ai_specialists.Epic.Database.{
  Json, StatusJson, unparsed, object, EpicRunRecord, Database, read_epic_run,
}
use unit_ai_specialists.Epic.Stored.Laws.{read-upsert}
use unit_ai_specialists.Epic.Reconciler.{
  is_marker, has_redirect_markers, clear_redirect_markers, clear_markers, sync_epic_state,
}

clear_markers-reads :
    (now : ℕ) (id : String) (r : EpicRunRecord) (db : Database)
    → r.epic_id ≡ id
    → has_redirect_markers r.status_json ≡ true
    → read_epic_run id (clear_markers now (some r) db).1
      ≡ some (record r { status_json = clear_redirect_markers r.status_json; updated_at_ms = now })
unfolding clear_markers
clear_markers-reads now id r db e m = rw (m, read-upsert, e, eq_refl id) refl

unmarked : (entries : Dict Json) → any is_marker (filter (λ e. not (is_marker e)) entries) ≡ false
unmarked [] = refl
unmarked (e ∷ entries) = elim (Bool-cases (is_marker e)) [
  | inl m ↦ rw m (unmarked entries)
  | inr m ↦ rw m (rw m (unmarked entries))
]

clear-clean : (j : StatusJson) → has_redirect_markers (clear_redirect_markers j) ≡ false
unfolding has_redirect_markers clear_redirect_markers
clear-clean (unparsed text) = refl
clear-clean (object entries) = unmarked entries

-- Where the stored record of an epic has redirect markers, an applied repair takes the markers
-- away and leaves the state that was stored before it, whatever state it derived and wrote in
-- between.
pub repair_reverts :
    (alive : Alive) (host : HostProbe) (now : ℕ) (id : String) (db : Database) (r : EpicRunRecord)
    → read_epic_run id db ≡ some r
    → r.epic_id ≡ id
    → has_redirect_markers r.status_json ≡ true
    → (after : EpicRunRecord) × (read_epic_run id (sync_epic_state alive host now id true db).1
        ≡ some after)
      × (after.status ≡ r.status)
      × (has_redirect_markers after.status_json ≡ false)
unfolding sync_epic_state
repair_reverts alive host now id db r e k m = (
  record r { status_json = clear_redirect_markers r.status_json; updated_at_ms = now },
  rw e (clear_markers-reads now id r _ k m),
  refl,
  clear-clean r.status_json,
)

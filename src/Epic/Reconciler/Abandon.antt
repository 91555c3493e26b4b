-- ===== src/Epic/Reconciler/Abandon.antt =====
-- The abandoning of an epic, src/specialist/epic-reconciler.ts.
use unit_ai_specialists.Common.{
  ℕ, ◌≡◌, ◌≢◌, refl, sym, ◌∙◌, subst, ◌↔◌, ◌⊎◌, inl, inr, Bool, true, false, not, ◌&&◌, Option,
  some, List, [], ◌∷◌, ◌++◌, map, String, eq_refl, arith, filter, if◌then◌else◌, Bool-cases,
}
use unit_ai_specialists.Common.Dict.{get, get-set}
use unit_ai_specialists.Job.{HostProbe, is_active, is_job_dead}
use unit_ai_specialists.Epic.Lifecycle.{EpicState}
use unit_ai_specialists.Epic.Database.{
  audited, transitions, EpicRunRecord, Database, read_epic_run, upsert_epic_run,
}
use unit_ai_specialists.Epic.Stored.{status_or_open}
use unit_ai_specialists.Epic.Stored.Laws.{read-upsert}
use unit_ai_specialists.Epic.Reconciler.{collect_epic_jobs}
use unit_ai_specialists.Epic.Reconciler.Audit.{
  previous_transitions, parsed_object, append_epic_transition_audit, json_of, audit_of,
  build_abandoned_status_json,
}

unfoldable pub list_live_member_job_ids : HostProbe → String → Database → List String
list_live_member_job_ids host id db =
    map (λ j. j.id)
      (filter (λ j. is_active j.status && not (is_job_dead host j)) (collect_epic_jobs id db))

pub record EpicAbandonResult : Type 0 where
  pub epic_id : String
  pub from_state : EpicState
  pub forced : Bool
  pub reason : String
  pub live_member_job_ids : List String

pub data Abandoned : Type 0 where
  already_merged already_abandoned : Abandoned
  has_live_members : List String → Abandoned
  abandoned : EpicAbandonResult → Database → Abandoned

abbrev none_live : List String → Bool
none_live [] = true
none_live (_ ∷ _) = false

module _ (host : HostProbe) (now : ℕ) (id reason : String) (force : Bool) (db : Database) where
  abbrev result_of : EpicState → List String → EpicAbandonResult
  result_of from live = record {
    epic_id = id;
    from_state = from;
    forced = force;
    reason = reason;
    live_member_job_ids = live;
  }

  abbrev stored_of : EpicState → EpicRunRecord
  stored_of from = record {
    epic_id = id;
    status = EpicState.abandoned;
    status_json = build_abandoned_status_json now (read_epic_run id db) id from reason force;
    updated_at_ms = now;
  }

  abandon_unless_live : EpicState → List String → Abandoned
  abandon_unless_live from live =
      if not force && not (none_live live)
      then has_live_members live
      else abandoned (result_of from live) (upsert_epic_run (stored_of from) db)

  abandon_from : EpicState → List String → Abandoned
  unfolding abandon_unless_live
  abandon_from EpicState.merged live = already_merged
  abandon_from EpicState.abandoned live = already_abandoned
  abandon_from from live = abandon_unless_live from live

  unfoldable pub abandon_epic : Abandoned
  unfolding abandon_from
  abandon_epic =
      abandon_from (status_or_open (read_epic_run id db)) (list_live_member_job_ids host id db)

  -- The state allows it, and the epic has no live member or the caller forces it.
  abbrev pub Allowed : EpicState → List String → Type 0
  Allowed from live =
      (from ≢ EpicState.merged) × (from ≢ EpicState.abandoned) × ((force ≡ true) ⊎ (live ≡ []))

  -- The outcome of an abandoning that was carried out.
  abbrev CarriedOut : EpicState → List String → Abandoned → Type 0
  CarriedOut from live a = a ≡ abandoned (result_of from live) (upsert_epic_run (stored_of from) db)

  abbrev refused : Abandoned → Bool
  refused (abandoned out after) = false
  refused _ = true

  none_live_iff : (live : List String) → (none_live live ≡ true) ↔ (live ≡ [])
  none_live_iff [] = ground arith
  none_live_iff (x ∷ live) = ground arith

  unless_live :
      (from : EpicState) (live : List String)
      → from ≢ EpicState.merged
      → from ≢ EpicState.abandoned
      → (Allowed from live × CarriedOut from live (abandon_unless_live from live))
        ⊎ (¬ (Allowed from live) × (refused (abandon_unless_live from live) ≡ true))
  unfolding abandon_unless_live
  unless_live from live m a = elim (Bool-cases force) [
    | inl f ↦ inl ((m, a, inl f), rw f refl)
    | inr f ↦ elim (Bool-cases (none_live live)) [
      | inl n ↦ inl ((m, a, inr ((none_live_iff live).0 n)), rw (f, n) refl)
      | inr n ↦ inr (
        (λ h. elim h.2 [
          | inl t ↦ ground (arith, f, t)
          | inr e ↦ ground (arith, n, (none_live_iff live).1 e)
        ]),
        rw (f, n) refl,
      )
    ]
  ]

  from_cases :
      (from : EpicState) (live : List String)
      → (Allowed from live × CarriedOut from live (abandon_from from live))
        ⊎ (¬ (Allowed from live) × (refused (abandon_from from live) ≡ true))
  unfolding abandon_from
  from_cases EpicState.merged live = inr ((λ h. h.0 refl), refl)
  from_cases EpicState.abandoned live = inr ((λ h. h.1 refl), refl)
  from_cases EpicState.opened live =
      unless_live EpicState.opened live (λ e. ground (arith, e)) (λ e. ground (arith, e))
  from_cases EpicState.resolving live =
      unless_live EpicState.resolving live (λ e. ground (arith, e)) (λ e. ground (arith, e))
  from_cases EpicState.merge_ready live =
      unless_live EpicState.merge_ready live (λ e. ground (arith, e)) (λ e. ground (arith, e))
  from_cases EpicState.failed live =
      unless_live EpicState.failed live (λ e. ground (arith, e)) (λ e. ground (arith, e))

  -- What the abandoning leaves stored.
  abbrev pub Stored : EpicAbandonResult → Database → Type 0
  Stored out after =
      (out.from_state ≡ status_or_open (read_epic_run id db))
      × (after.jobs ≡ db.jobs)
      × (after.chains ≡ db.chains)
      × ((r : EpicRunRecord) × (read_epic_run id after ≡ some r)
          × (r.status ≡ EpicState.abandoned)
          × (get "transitions" (parsed_object (some r.status_json))
              ≡ some (
                  transitions (
                    previous_transitions
                      (get "transitions" (parsed_object (json_of (read_epic_run id db))))
                    ++ audited (audit_of out.from_state now reason force) ∷ []))))

  audit_kept :
      (from : EpicState) (epic : Option EpicRunRecord)
      → get "transitions"
          (parsed_object (some (build_abandoned_status_json now epic id from reason force)))
        ≡ some (
            transitions (
              previous_transitions (get "transitions" (parsed_object (json_of epic)))
              ++ audited (audit_of from now reason force) ∷ []))
  unfolding build_abandoned_status_json append_epic_transition_audit
  audit_kept from epic = rw (get-set, get-set, get-set, get-set, get-set) refl

  carried_out-Stored :
      (live : List String)
      → Stored
          (result_of (status_or_open (read_epic_run id db)) live)
          (upsert_epic_run (stored_of (status_or_open (read_epic_run id db))) db)
  unfolding upsert_epic_run
  carried_out-Stored live = (
    refl,
    refl,
    refl,
    (
      stored_of (status_or_open (read_epic_run id db)),
      rw (read-upsert, eq_refl id) refl,
      refl,
      audit_kept (status_or_open (read_epic_run id db)) (read_epic_run id db),
    ),
  )

  not_refused :
      (a : Abandoned) (out : EpicAbandonResult) (after : Database)
      → refused a ≡ true
      → a ≡ abandoned out after
      → ⊥
  not_refused a out after h e =
      let clash : false ≡ true = subst (λ x. refused x ≡ true) e h in ground arith

  same_outcome :
      (a b : EpicAbandonResult) (x y : Database) → abandoned a x ≡ abandoned b y → (a ≡ b) × (x ≡ y)
  same_outcome a b x y h = (cc, cc)

  -- An epic is abandoned exactly when it is neither merged nor abandoned and has no live member or
  -- the caller forces it. Its stored state is then abandoned, its audit gains this transition at the
  -- end, and no job or chain is touched.
  pub abandon_iff :
      (((out : EpicAbandonResult) × (after : Database) × (abandon_epic ≡ abandoned out after))
        ↔ Allowed (status_or_open (read_epic_run id db)) (list_live_member_job_ids host id db))
      × ((out : EpicAbandonResult) (after : Database)
          → abandon_epic ≡ abandoned out after
          → Stored out after)
  unfolding abandon_epic
  abandon_iff =
      let from : EpicState = status_or_open (read_epic_run id db) in
      let live : List String = list_live_member_job_ids host id db in
      elim (from_cases from live) [
        | inl (ok, carried) ↦ (
          (λ h. ok, λ h. (result_of from live, upsert_epic_run (stored_of from) db, carried)),
          λ out after h.
              let (a, b) =
                same_outcome (result_of from live) out (upsert_epic_run (stored_of from) db) after
                  (sym carried ∙ h) in
              subst (λ o. Stored o after) a
                (subst (λ d. Stored (result_of from live) d) b (carried_out-Stored live)),
        )
        | inr (forbidden, refusal) ↦ (
          (
            λ h. let (out, after, e) = h in absurd (not_refused _ out after refusal e),
            λ h. absurd (forbidden h),
          ),
          λ out after h. absurd (not_refused _ out after refusal h),
        )
      ]

-- ===== src/Epic/Reconciler/Marking.antt =====
-- The dead jobs of an epic, src/specialist/epic-reconciler.ts: marking them leaves none active.
use unit_ai_specialists.Common.{
  ℕ, ◌≡◌, refl, sym, ◌∙◌, ap, inl, inr, Bool, true, false, not, ◌&&◌, ◌||◌, Option, none, some,
  List, [], ◌∷◌, map, String, str_eq, is_text, eq_iff, eq_refl, filter, find, defined, arith, All,
  All-mono, All-Memᴰ, Memᴰ, Bool-cases,
}
use unit_ai_specialists.Job.{SupervisorStatus, is_active, HostProbe, is_job_dead}
use unit_ai_specialists.Epic.Database.{
  Database, includes_text, list_epic_chains, list_statuses, upsert_status,
}
use unit_ai_specialists.Epic.Reconciler.{
  in_chains, collect_epic_jobs, detect_dead_blocking_jobs, as_error, mark_one, mark_each,
  mark_dead_jobs_as_error,
}

module _ (host : HostProbe) (now : ℕ) (coll : SupervisorStatus → Bool) where
  abbrev dead : SupervisorStatus → Bool
  dead j = is_active j.status && is_job_dead host j

  abbrev blocks : SupervisorStatus → Bool
  blocks j = coll j && dead j

  abbrev ids_of : List SupervisorStatus → List String
  ids_of jobs = map (λ j. j.id) (filter dead (filter coll jobs))

  -- A blocking row is among the ids that are marked, and among the rows that are searched.
  listed :
      (j : SupervisorStatus) (jobs : List SupervisorStatus)
      → Memᴰ j jobs
      → blocks j ≡ true
      → includes_text j.id (ids_of jobs) ≡ true
  listed j [] m b = elim m [ ]
  listed j (k ∷ jobs) (Memᴰ.head e) b =
      let c : coll k ≡ true = ap coll (sym e) ∙ ground (arith, b) in
      let d : dead k ≡ true = ap dead (sym e) ∙ ground (arith, b) in
      let same : str_eq k.id j.id ≡ true = ap (λ x. str_eq x.id j.id) (sym e) ∙ eq_refl j.id in
      rw (c, d, same) refl
  listed j (k ∷ jobs) (Memᴰ.tail m) b =
      let ih = listed j jobs m b in
      elim (Bool-cases (coll k)) [
        | inr c ↦ rw c ih
        | inl c ↦ elim (Bool-cases (dead k)) [
          | inr d ↦ rw (c, d) ih
          | inl d ↦ rw (c, d) (ground (arith, ih))
        ]
      ]

  found :
      (j : SupervisorStatus) (jobs : List SupervisorStatus)
      → Memᴰ j jobs
      → blocks j ≡ true
      → defined (find (λ k. str_eq k.id j.id) (filter coll jobs)) ≡ true
  found j [] m b = elim m [ ]
  found j (k ∷ jobs) (Memᴰ.head e) b =
      let c : coll k ≡ true = ap coll (sym e) ∙ ground (arith, b) in
      let same : str_eq k.id j.id ≡ true = ap (λ x. str_eq x.id j.id) (sym e) ∙ eq_refl j.id in
      rw (c, same) refl
  found j (k ∷ jobs) (Memᴰ.tail m) b =
      let ih = found j jobs m b in
      elim (Bool-cases (coll k)) [
        | inr c ↦ rw c ih
        | inl c ↦ elim (Bool-cases (str_eq k.id j.id)) [
          | inl s ↦ rw (c, s) refl
          | inr s ↦ rw (c, s) ih
        ]
      ]

  find-id :
      (x : String) (jobs : List SupervisorStatus) (j : SupervisorStatus)
      → find (λ k. str_eq k.id x) jobs ≡ some j
      → j.id ≡ x
  find-id x [] j h = absurd (cc)
  find-id x (k ∷ jobs) j h = elim (Bool-cases (str_eq k.id x)) [
    | inl s ↦
        let first : some k ≡ some j = (rw s at h) in
        let same : k ≡ j = cc (first) in ap (λ y. y.id) (sym same) ∙ (eq_iff k.id x).0 s
    | inr s ↦ find-id x jobs j (rw s at h)
  ]

  -- What is still to be marked.
  abbrev Pending : List SupervisorStatus → List String → SupervisorStatus → Type 0
  Pending jobs ids j =
      blocks j ≡ true
      → (includes_text j.id ids ≡ true) × (defined (find (λ k. str_eq k.id j.id) jobs) ≡ true)

  skip_missing :
      (jobs : List SupervisorStatus) (x : String) (ids : List String) (j : SupervisorStatus)
      → find (λ k. str_eq k.id x) jobs ≡ none
      → Pending jobs (x ∷ ids) j
      → Pending jobs ids j
  skip_missing jobs x ids j n p b =
      let (among, there) = p b in
      elim (Bool-cases (str_eq x j.id)) [
        | inr s ↦ (ground (arith, among, s), there)
        | inl s ↦
            let same : x ≡ j.id = (eq_iff x j.id).0 s in
            let gone : find (λ k. str_eq k.id j.id) jobs ≡ none =
              ap (λ y. find (λ k. str_eq k.id y) jobs) (sym same) ∙ n in
            absurd (ground (arith, there, gone))
      ]

  skip_marked :
      (jobs : List SupervisorStatus) (x : String) (ids : List String) (j : SupervisorStatus)
      (rows : List SupervisorStatus)
      → j.id ≡ x
      → All (Pending jobs (x ∷ ids)) rows
      → All (Pending jobs ids) (filter (λ r. not (str_eq r.id j.id)) rows)
  skip_marked jobs x ids j [] e h = tt
  skip_marked jobs x ids j (r ∷ rows) e (p, h) =
      let rest = skip_marked jobs x ids j rows e h in
      elim (Bool-cases (str_eq r.id j.id)) [
        | inl s ↦ rw s rest
        | inr s ↦ rw s (
          (λ b.
              let (among, there) = p b in
              let other : str_eq x r.id ≡ false =
                ground (arith, s, e, eq_iff x r.id, eq_iff r.id j.id) in
              (ground (arith, among, other), there)),
          rest,
        )
      ]

  error_clear : (j : SupervisorStatus) → blocks (as_error now j) ≡ true → ⊥
  error_clear j h = elim (Bool-cases (coll (as_error now j))) [
    | inl c ↦ ground (arith, h, c)
    | inr c ↦ ground (arith, h, c)
  ]

  mark_one-Pending :
      (jobs : List SupervisorStatus) (x : String) (ids : List String) (db : Database)
      (o : Option SupervisorStatus)
      → find (λ k. str_eq k.id x) jobs ≡ o
      → All (Pending jobs (x ∷ ids)) db.jobs
      → All (Pending jobs ids) (mark_one now o db).jobs
  unfolding mark_one upsert_status
  mark_one-Pending jobs x ids db none e h =
      All-mono (λ j p. skip_missing jobs x ids j e p) db.jobs h
  mark_one-Pending jobs x ids db (some j) e h =
      ((λ b. absurd (error_clear j b)), skip_marked jobs x ids j db.jobs (find-id x jobs j e) h)

  mark_each-clears :
      (jobs : List SupervisorStatus) (ids : List String) (db : Database)
      → All (Pending jobs ids) db.jobs
      → All (λ j. blocks j ≡ false) (mark_each now jobs ids db).jobs
  unfolding mark_each
  mark_each-clears jobs [] db h =
      All-mono
        (λ j p. elim (Bool-cases (blocks j)) [
          | inl b ↦ absurd (ground (arith, (p b).0))
          | inr b ↦ b
        ])
        db.jobs h
  mark_each-clears jobs (x ∷ ids) db h =
      let o = find (λ k. str_eq k.id x) jobs in
      mark_each-clears jobs ids (mark_one now o db) (mark_one-Pending jobs x ids db o refl h)

  mark_one-chains :
      (db : Database) (o : Option SupervisorStatus) → (mark_one now o db).chains ≡ db.chains
  unfolding mark_one upsert_status
  mark_one-chains db none = refl
  mark_one-chains db (some j) = refl

  mark_each-chains :
      (jobs : List SupervisorStatus) (ids : List String) (db : Database)
      → (mark_each now jobs ids db).chains ≡ db.chains
  unfolding mark_each mark_one upsert_status
  mark_each-chains jobs [] db = refl
  mark_each-chains jobs (x ∷ ids) db =
      let o = find (λ k. str_eq k.id x) jobs in
      mark_each-chains jobs ids (mark_one now o db) ∙ mark_one-chains db o

  none_left : (jobs : List SupervisorStatus) → All (λ j. blocks j ≡ false) jobs → ids_of jobs ≡ []
  none_left [] h = refl
  none_left (j ∷ jobs) (b, h) =
      let rest = none_left jobs h in
      elim (Bool-cases (coll j)) [
        | inr c ↦ rw c rest
        | inl c ↦ let d : dead j ≡ false = ground (arith, b, c) in rw (c, d) rest
      ]

-- The test of `collect_epic_jobs`.
abbrev collects : String → Database → SupervisorStatus → Bool
collects id db s =
    is_text s.epic_id id || in_chains s.chain_id (map (λ c. c.chain_id) (list_epic_chains id db))

-- After the dead jobs of an epic are marked none of its jobs counts as active and dead, and the
-- chains are as before.
pub marking_clears :
    (host : HostProbe) (now : ℕ) (id : String) (db : Database)
    → let after = (mark_dead_jobs_as_error host now (collect_epic_jobs id db) db).1 in
      (after.chains ≡ db.chains)
      × (detect_dead_blocking_jobs host (collect_epic_jobs id after) ≡ [])
unfolding mark_dead_jobs_as_error collect_epic_jobs detect_dead_blocking_jobs list_epic_chains
    list_statuses
marking_clears host now id db =
    let coll : SupervisorStatus → Bool = collects id db in
    let jobs : List SupervisorStatus = filter coll db.jobs in
    let ids = ids_of host now coll db.jobs in
    let kept = mark_each-chains host now coll jobs ids db in
    let clear = mark_each-clears host now coll jobs ids db (
      All-mono (λ j m b. (listed host now coll j db.jobs m b, found host now coll j db.jobs m b))
        db.jobs (All-Memᴰ db.jobs)) in
    (kept, rw kept (none_left host now coll (mark_each now jobs ids db).jobs clear))

-- ===== src/SnapshotDiff/Replay.antt =====
-- Replaying a diff (src/specialist/snapshot-diff.ts): the old rows without the tombstones and with the
-- upserts are the new rows.
mod Examples
use unit_ai_specialists.Common.{
  ℕ, ◌+◌, ◌≡◌, refl, sym, ◌∙◌, ap, ◌⊎◌, inl, inr, Bool, true, false, not, ◌&&◌, ◌||◌, Option, none,
  some, List, [], ◌∷◌, String, str_eq, eq_iff, eq_refl, any, length, if◌then◌else◌, arith, defined,
  Bool-cases, Option-cases,
}
use unit_ai_specialists.Common.Dict.{Dict, get, set, delete, has, get-set, get-delete, has-set}
use unit_ai_specialists.SnapshotDiff.{
  SnapshotDiffResult, add_by_key, upserts_of, unchanged_of, tombstones_of, snapshot_diff,
}

module _ {A : Type 0} (key : A → String) (same : A → A → Bool) where
  -- What a consumer does with a diff.
  unfoldable pub drop_all : List A → Dict A → Dict A
  drop_all [] m = m
  drop_all (row ∷ rows) m = drop_all rows (delete (key row) m)

  abbrev pub replay : SnapshotDiffResult A → Dict A → Dict A
  replay d m = add_by_key key same d.upserts (drop_all d.tombstones m)

  -- Nothing in both, or rows that are the same.
  abbrev pub Agree : Option A → Option A → Type 0
  Agree none none = Unit {0}
  Agree (some x) (some y) = (x ≡ y) ⊎ (same x y ≡ true)
  Agree _ _ = ⊥

  -- A map that was made from rows: each is at its key, and no key comes twice.
  abbrev ByKey : Dict A → Type 0
  ByKey [] = Unit {0}
  ByKey ((k, row) ∷ m) = (key row ≡ k) × (has k m ≡ false) × ByKey m

  set-ByKey : (row : A) (m : Dict A) → ByKey m → ByKey (set (key row) row m)
  unfolding set get
  set-ByKey row [] h = (refl, refl, tt)
  set-ByKey row ((j, v) ∷ m) (at, once, rest) = elim (Bool-cases (str_eq j (key row))) [
    | inl e ↦ rw e (sym ((eq_iff j (key row)).0 e), once, rest)
    | inr e ↦ rw e (
      at,
      rw has-set (ground (arith, e, once, eq_iff (key row) j, eq_iff j (key row))),
      set-ByKey row m rest,
    )
  ]

  add_by_key-ByKey : (rows : List A) (m : Dict A) → ByKey m → ByKey (add_by_key key same rows m)
  unfolding add_by_key
  add_by_key-ByKey [] m h = h
  add_by_key-ByKey (row ∷ rows) m h =
      add_by_key-ByKey rows (set (key row) row m) (set-ByKey row m h)

  get-drop_all :
      (k : String) (rows : List A) (m : Dict A)
      → get k (drop_all rows m) ≡ (if any (λ r. str_eq (key r) k) rows then none else get k m)
  unfolding drop_all
  get-drop_all k [] m = refl
  get-drop_all k (row ∷ rows) m = elim (Bool-cases (str_eq (key row) k)) [
    | inl e ↦ rw (get-drop_all k rows (delete (key row) m), get-delete, e) (ground arith)
    | inr e ↦ rw (get-drop_all k rows (delete (key row) m), get-delete, e) refl
  ]

  tombstones-any :
      (k : String) (after rows : Dict A)
      → ByKey rows
      → any (λ r. str_eq (key r) k) (tombstones_of key same after rows)
        ≡ (has k rows && not (has k after))
  unfolding tombstones_of get
  tombstones-any k after [] h = refl
  tombstones-any k after ((j, row) ∷ rows) (at, once, rest) =
      let ih = tombstones-any k after rows rest in
      let named : str_eq (key row) k ≡ str_eq j k = ap (λ x. str_eq x k) at in
      elim (Bool-cases (str_eq j k)) [
        | inl e ↦
            let here : j ≡ k = (eq_iff j k).0 e in
            let other : has k rows ≡ false = ap (λ x. has x rows) (sym here) ∙ once in
            let kept : has j after ≡ has k after = ap (λ x. has x after) here in
            elim (Bool-cases (has j after)) [
              | inl a ↦ rw (e, a) (ih ∙ ground (arith, other, kept, a))
              | inr a ↦ rw (e, a, named, e) (ground (arith, kept, a))
            ]
        | inr e ↦ elim (Bool-cases (has j after)) [
          | inl a ↦ rw (e, a) ih
          | inr a ↦ rw (e, a, named, e) ih
        ]
      ]

  none_of : (k : String) (m : Dict A) → has k m ≡ false → get k m ≡ none
  none_of k m h = elim (Option-cases (get k m)) [
    | inl n ↦ n
    | inr (x, e) ↦ absurd (ground (arith, h, e))
  ]

  -- What the upserts leave at a key.
  abbrev left_at : Option A → Option A → Option A → Option A
  left_at none old was = was
  left_at (some row) none was = some row
  left_at (some row) (some old) was = if same old row then was else some row

  get-upserts :
      (k : String) (before rows m : Dict A)
      → ByKey rows
      → get k (add_by_key key same (upserts_of key same before rows) m)
        ≡ left_at (get k rows) (get k before) (get k m)
  unfolding upserts_of get add_by_key
  get-upserts k before [] m h = refl
  get-upserts k before ((j, row) ∷ rows) m (at, once, rest) =
      let named : str_eq (key row) k ≡ str_eq j k = ap (λ x. str_eq x k) at in
      let put : Dict A = set (key row) row m in
      let kept = get-upserts k before rows m rest in
      let wrote = get-upserts k before rows put rest in
      elim (Bool-cases (str_eq j k)) [
        | inl e ↦
            let here : j ≡ k = (eq_iff j k).0 e in
            let alone : get k rows ≡ none =
              none_of k rows (ap (λ x. has x rows) (sym here) ∙ once) in
            let now : get k put ≡ some row = rw (get-set, named, e) refl in
            let was : get j before ≡ get k before = ap (λ x. get x before) here in
            elim (Option-cases (get j before)) [
              | inl n ↦ rw (e, n, ← was, n) (wrote ∙ (rw alone now))
              | inr (old, o) ↦ elim (Bool-cases (same old row)) [
                | inl q ↦ rw (e, o, ← was, o, q) (kept ∙ (rw alone refl))
                | inr q ↦ rw (e, o, ← was, o, q) (wrote ∙ (rw alone now))
              ]
            ]
        | inr e ↦
            let still : get k put ≡ get k m = rw (get-set, named, e) refl in
            let passed = wrote ∙ ap (left_at (get k rows) (get k before)) still in
            elim (Option-cases (get j before)) [
              | inl n ↦ rw (e, n) passed
              | inr (old, o) ↦ elim (Bool-cases (same old row)) [
                | inl q ↦ rw (e, o, q) kept
                | inr q ↦ rw (e, o, q) passed
              ]
            ]
      ]

  Agree-all :
      (new old : Option A)
      → Agree (left_at new old (if defined old && not (defined new) then none else old)) new
  Agree-all none none = tt
  Agree-all none (some o) = tt
  Agree-all (some n) none = inl refl
  Agree-all (some n) (some o) = elim (Bool-cases (same o n)) [
    | inl e ↦ rw e (inr e)
    | inr e ↦ rw e (inl refl)
  ]

  counts_all :
      (before rows : Dict A)
      → length (upserts_of key same before rows) + unchanged_of key same before rows ≡ length rows
  unfolding upserts_of unchanged_of
  counts_all before [] = refl
  counts_all before ((k, row) ∷ rows) =
      let ih = counts_all before rows in
      elim (Option-cases (get k before)) [
        | inl n ↦ rw n (omega (arith, ih))
        | inr (old, o) ↦ elim (Bool-cases (same old row)) [
          | inl q ↦ rw (o, q) (omega (arith, ih))
          | inr q ↦ rw (o, q) (omega (arith, ih))
        ]
      ]

  -- Replaying the diff of two snapshots over the old one gives the new one: at every key the same row,
  -- up to the text of its value, or none in both. Every new row is an upsert or counted unchanged.
  pub replay-Agree :
      (prev next : List A) (k : String)
      → let d = snapshot_diff key same prev next in
        let after = add_by_key key same next [] in
        Agree (get k (replay d (add_by_key key same prev []))) (get k after)
        × (length d.upserts + d.unchanged_count ≡ length after)
  unfolding snapshot_diff
  replay-Agree prev next k =
      let before : Dict A = add_by_key key same prev [] in
      let after : Dict A = add_by_key key same next [] in
      (
        rw
            (
              get-upserts k before after (drop_all (tombstones_of key same after before) before)
                  (add_by_key-ByKey next [] tt),
              get-drop_all k (tombstones_of key same after before) before,
              tombstones-any k after before (add_by_key-ByKey prev [] tt),
            )
            (Agree-all (get k after) (get k before)),
        counts_all before after,
      )

-- ===== src/SnapshotDiff.antt =====
-- `snapshotDiff` of src/specialist/snapshot-diff.ts. `key` is the caller's key of a row, and `same` tells
-- whether two rows have the same stable text.
pub mod Replay
use unit_ai_specialists.Common.{
  ℕ, suc, Bool, true, false, not, Option, none, some, List, [], ◌∷◌, String, if◌then◌else◌,
}
use unit_ai_specialists.Common.Dict.{Dict, get, set, has}

pub record SnapshotDiffResult (A : Type 0) : Type 0 where
  pub upserts : List A
  pub tombstones : List A
  pub unchanged_count : ℕ

module _ {A : Type 0} (key : A → String) (same : A → A → Bool) where
  -- `new Map(rows.map(row => [keyFn(row), row]))`: of two rows with a key the later one stays.
  unfoldable pub add_by_key : List A → Dict A → Dict A
  add_by_key [] m = m
  add_by_key (row ∷ rows) m = add_by_key rows (set (key row) row m)

  -- A new row against the old one of its key: it is pushed before the rest, or not.
  abbrev pub push : A → Option A → List A → List A
  push row none rest = row ∷ rest
  push row (some old) rest = if same old row then rest else row ∷ rest

  abbrev pub count : A → Option A → ℕ → ℕ
  count row none rest = rest
  count row (some old) rest = if same old row then suc rest else rest

  -- The loop over the new rows: what it pushes, and what it counts.
  unfoldable pub upserts_of : Dict A → Dict A → List A
  upserts_of before [] = []
  upserts_of before ((k, row) ∷ rows) = push row (get k before) (upserts_of before rows)

  unfoldable pub unchanged_of : Dict A → Dict A → ℕ
  unchanged_of before [] = 0
  unchanged_of before ((k, row) ∷ rows) = count row (get k before) (unchanged_of before rows)

  -- The loop over the old rows.
  unfoldable pub tombstones_of : Dict A → Dict A → List A
  tombstones_of after [] = []
  tombstones_of after ((k, row) ∷ rows) =
      let rest = tombstones_of after rows in if not (has k after) then row ∷ rest else rest

  unfoldable pub snapshot_diff : List A → List A → SnapshotDiffResult A
  unfolding add_by_key upserts_of unchanged_of tombstones_of
  snapshot_diff prev next =
      let before = add_by_key prev [] in
      let after = add_by_key next [] in
      record {
        upserts = upserts_of before after;
        tombstones = tombstones_of after before;
        unchanged_count = unchanged_of before after;
      }

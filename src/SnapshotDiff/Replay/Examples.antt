-- ===== src/SnapshotDiff/Replay/Examples.antt =====
-- A run of the diff at concrete inputs (src/specialist/snapshot-diff.ts).
use unit_ai_specialists.Common.{ℕ, ◌+◌, ◌==◌, ◌≡◌, refl, Bool, List, [], ◌∷◌, String, length}
use unit_ai_specialists.Common.Dict.{get, set}
use unit_ai_specialists.SnapshotDiff.{add_by_key, snapshot_diff, upserts_of}
use unit_ai_specialists.SnapshotDiff.Replay.{Agree, replay, replay-Agree}

abbrev Row : Type 0
Row = String × ℕ

abbrev key : Row → String
key row = row.0

abbrev same : Row → Row → Bool
same a b = a.1 == b.1

abbrev old_rows : List Row
old_rows = ("a", 1) ∷ ("b", 2) ∷ ("c", 3) ∷ []

abbrev new_rows : List Row
new_rows = ("b", 5) ∷ ("c", 3) ∷ ("d", 4) ∷ []

diff_test : (snapshot_diff key same old_rows new_rows).upserts ≡ ("b", 5) ∷ ("d", 4) ∷ []
unfolding snapshot_diff add_by_key upserts_of get set
diff_test = refl

replay-Agree_example :
    let d = snapshot_diff key same old_rows new_rows in
    let after = add_by_key key same new_rows [] in
    Agree key same (get "b" (replay key same d (add_by_key key same old_rows []))) (get "b" after)
    × (length d.upserts + d.unchanged_count ≡ length after)
replay-Agree_example = replay-Agree key same old_rows new_rows "b"

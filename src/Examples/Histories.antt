-- ===== src/Examples/Histories.antt =====
-- A revision history that the new revision does not fit behind: the oldest one goes.
use batch_release.Base.{◌≤◌, ◌≡◌, refl, some, List, ◌∷◌, [], ◌++◌, length, arith}
use batch_release.Base.Text.{Text, codes}
use batch_release.Executor.Revision.{split, extend_history}
use batch_release.Executor.Revision.History.{IsNeeded, extend_history-IsLatest}

extend_history-IsLatest_example :
    (history : Text) × (dropped : List Text) × (kept : List Text) × (extend_history 5
        (codes "1,2,3")
        (codes "4")
      ≡ some history)
    × (split (codes "1,2,3") ≡ dropped ++ kept)
    × (split history ≡ kept ++ codes "4" ∷ [])
    × (length history ≤ 5)
    × IsNeeded 5 (codes "4") dropped kept
extend_history-IsLatest_example =
    extend_history-IsLatest 5 (codes "4") (omega arith) b'1' (codes ",2,3") refl (refl, tt)

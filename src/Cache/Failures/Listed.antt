-- ===== src/Cache/Failures/Listed.antt =====
-- What holds of the rows that ListIssues of internal/mount/cache/db.go gives.
use pigcloud_cli.Common.{List, [], ◌∷◌, Bool, All, Bool-cases, inl, inr, keep}
use pigcloud_cli.Cache.{Inode, Db}
use pigcloud_cli.Cache.Failures.{before, insert_by_path, sort_by_path, list_issues}

-- What all rows of the table have, all issues have.
module _ (P : Inode → Type 0) where
  All-insert_by_path : (r : Inode) (l : List Inode) → P r → All P l → All P (insert_by_path r l)
  unfolding insert_by_path
  All-insert_by_path r [] h hs = (h, tt)
  All-insert_by_path r (q ∷ l) h hs = elim (Bool-cases (before q.remote_path r.remote_path)) [
    | inl earlier ↦ rw earlier (hs.0, All-insert_by_path r l h hs.1)
    | inr later ↦ rw later (h, hs)
  ]

  All-sort_by_path : (l : List Inode) → All P l → All P (sort_by_path l)
  unfolding sort_by_path
  All-sort_by_path [] h = tt
  All-sort_by_path (r ∷ l) h = All-insert_by_path r (sort_by_path l) h.0 (All-sort_by_path l h.1)

  All-keep_rows : (p : Inode → Bool) (l : List Inode) → All P l → All P (keep p l)
  All-keep_rows p [] h = tt
  All-keep_rows p (r ∷ l) h = elim (Bool-cases (p r)) [
    | inl hit ↦ rw hit (h.0, All-keep_rows p l h.1)
    | inr miss ↦ rw miss (All-keep_rows p l h.1)
  ]

  pub All-list_issues : (d : Db) → All P d.inodes → All P (list_issues d)
  unfolding list_issues
  All-list_issues d h = All-sort_by_path (keep _ d.inodes) (All-keep_rows _ d.inodes h)

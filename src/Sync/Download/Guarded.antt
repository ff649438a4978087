-- ===== src/Sync/Download/Guarded.antt =====
-- A download replaces no local edit: internal/mount/syncer/downloader.go and downloader_local.go.
use pigcloud_cli.Common.{
  if_either, ℕ, String, true, false, not, ◌||◌, ◌≡◌, refl, ◌⊎◌, inl, inr, Option, some, arith, ltb,
  same, same_iff, is_empty,
}
use pigcloud_cli.Cache.Evict.{Machine}
use pigcloud_cli.Sync.Download.{
  State, LocalFile, Reading, unreadable, missing, there, same_reading, Fetched, fetched,
  fetch_failed, Attempt, Result, remote_changed, local_changed, lost, folder_changed, file_changed,
  changes_pending, not_baseline, inode_dirty, local_baseline, conflicted, is_other, is_unreadable,
  validated, published, stored, overtaken, received, max_in_memory, download_file,
}

-- The reading finds no file, or one with the content that was synchronized last.
abbrev pub IsBaseline : Reading → String → Type 0
IsBaseline r base =
    (r ≡ missing) ⊎ ((f : LocalFile) × (r ≡ there f) × (f.hash ≡ base) × (is_empty base ≡ false))

-- The local file is as it was synchronized, no edit is pending, neither before nor after the fetch,
-- and the server has the version that was asked for.
abbrev pub Unharmed : State → Attempt → Type 0
Unharmed st a =
    IsBaseline a.after (local_baseline st.db st.node.id)
    × (inode_dirty st.db st.node.id ≡ false)
    × (inode_dirty (a.meanwhile st.db) st.node.id ≡ false)
    × (a.etag_then ≡ st.node.etag)

reading-IsBaseline :
    (before after : Reading) (base : String)
    → is_other before base ≡ false
    → same_reading before after ≡ true
    → IsBaseline after base
reading-IsBaseline missing missing base h k = inl refl
reading-IsBaseline (there a) (there b) base h k =
    inr (
      b,
      refl,
      ground (arith, h, k, same_iff a.hash base, same_iff a.hash b.hash),
      ground (arith, h),
    )
reading-IsBaseline missing (there b) base h k = absurd cc
reading-IsBaseline missing unreadable base h k = absurd cc
reading-IsBaseline (there a) missing base h k = absurd cc
reading-IsBaseline (there a) unreadable base h k = absurd cc
reading-IsBaseline unreadable r base h k = absurd cc

module _ (m : Machine) (st : State) (a : Attempt) (now : ℕ)
    (unpublished : st.published ≡ false) where
  abbrev Guards : State × Result → Type 0
  Guards r = r.0.published ≡ true → Unharmed st a

  nothing_done : (s : State) (r : Result) → s.published ≡ st.published → Guards (s, r)
  nothing_done s r e h = absurd (cc (e, h, unpublished))

  module _ (hash : String) (size : ℕ) (clean : inode_dirty st.db st.node.id ≡ false)
      (known : is_other a.before (local_baseline st.db st.node.id) ≡ false) where
    validated-Guards :
        Guards
          (published m a hash size st.node.etag now (validated (overtaken st a) a st.node.etag))
    unfolding conflicted
    validated-Guards =
        let u = overtaken st a in
        let go =
          λ (r : State × Option Result). Guards (published m a hash size st.node.etag now r) in
        if_either go (not (same u.node.etag st.node.etag)) (u, some remote_changed) _
          (λ e. nothing_done u remote_changed refl)
          (λ same_etag.
            if_either go (not a.safe_then) _ _
              (λ e. nothing_done (conflicted u folder_changed) local_changed refl)
              (λ safe.
                if_either go (not (same_reading a.before a.after) || inode_dirty u.db u.node.id) _ _
                  (λ e. nothing_done (conflicted u file_changed) local_changed refl)
                  (λ fresh h. (
                    reading-IsBaseline a.before a.after (local_baseline st.db st.node.id) known
                        (ground (arith, fresh)),
                    clean,
                    ground (arith, fresh),
                    ground (arith, same_etag, same_iff a.etag_then st.node.etag),
                  ))))

    stored-Guards : Guards (stored m (overtaken st a) a hash size st.node.etag now)
    unfolding stored conflicted
    stored-Guards =
        let u = overtaken st a in
        if_either Guards (not a.safe_fetched) _ _
          (λ e. nothing_done (conflicted u folder_changed) local_changed refl)
          (λ safe.
            if_either Guards (not a.dir_made) _ _ (λ e. nothing_done u (lost a.broken) refl)
              (λ made.
                if_either Guards (not a.staged) _ _ (λ e. nothing_done u (lost a.broken) refl)
                  (λ done. validated-Guards)))

  received-Guards :
      (fetch : Fetched)
      → inode_dirty st.db st.node.id ≡ false
      → is_other a.before (local_baseline st.db st.node.id) ≡ false
      → Guards (received m st a st.node.etag now fetch)
  received-Guards (fetched hash size) clean known = stored-Guards hash size clean known
  received-Guards (fetch_failed e) clean known = nothing_done (overtaken st a) (lost e) refl

-- Whatever the rest of the program does to the database and the node while a download is under way:
-- where the download replaces the local file, there was none to replace, or one with the content
-- that was synchronized last, and no edit was pending in the row when the download began nor when it
-- replaced the file, and the version on the server was the one that it had asked for.
pub download_file-Unharmed :
    (m : Machine) (st : State) (a : Attempt) (now : ℕ)
    → st.published ≡ false
    → (download_file m st a now).0.published ≡ true
    → Unharmed st a
unfolding download_file conflicted
download_file-Unharmed m st a now unpublished =
    let guards = Guards m st a now unpublished in
    let id = st.node.id in
    if_either guards (not a.safe_before) _ _
      (λ e. nothing_done m st a now unpublished st (lost a.unsafe_path) refl)
      (λ safe.
        if_either guards (is_unreadable a.before || inode_dirty st.db id) _ _
          (λ e.
            nothing_done m st a now unpublished (conflicted st changes_pending) local_changed refl)
          (λ readable.
            if_either guards (is_other a.before (local_baseline st.db id)) _ _
              (λ e.
                nothing_done m st a now unpublished (conflicted st not_baseline) local_changed refl)
              (λ known.
                if_either guards (ltb max_in_memory st.node.size) _ _
                  (λ e. nothing_done m st a now unpublished st (lost a.oversize) refl)
                  (λ small.
                    received-Guards m st a now unpublished a.fetch (ground (arith, readable))
                      known))))

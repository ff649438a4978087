-- ===== src/Sync/Kept/Uploads.antt =====
-- The uploads that are on their way stay so: EnqueueWriteback and DeleteFailedUploadWritebacks of
-- internal/mount/cache/db.go.
use pigcloud_cli.Common.{
  ℕ, String, List, [], ◌∷◌, ◌++◌, Bool, true, false, not, ◌&&◌, ◌||◌, ◌≡◌, refl, ap, inl, inr, some,
  arith, ◌==◌, same_iff, keep, any, Bool-cases,
}
use pigcloud_cli.Cache.{Action, upload, mkdir, delete, rename, unknown, Extra, Entry, Db, action_is}
use pigcloud_cli.Cache.Inodes.{get_inode_by_path}
use pigcloud_cli.Cache.Queue.Claims.{enqueued}
use pigcloud_cli.Cache.Queue.{
  is_waiting, is_claimed, is_gave_up, duplicates, new_entry, with_key, enqueue_writeback,
  has_active_writeback, delete_failed_upload_writebacks,
}
use pigcloud_cli.Sync.Kept.{Keeps}

-- The entries that HasActiveWriteback counts for an upload.
abbrev pub uploading : ℕ → Entry → Bool
uploading inode e =
    e.inode_id == inode && (action_is e.action upload && (is_waiting e || is_claimed e))

action_is-same : (a b : Action) → action_is a b ≡ true → a ≡ b
action_is-same upload upload h = refl
action_is-same mkdir mkdir h = refl
action_is-same delete delete h = refl
action_is-same rename rename h = refl
action_is-same (unknown s) (unknown t) h = ap unknown ((same_iff s t).0 h)
action_is-same upload mkdir h = absurd cc
action_is-same upload delete h = absurd cc
action_is-same upload rename h = absurd cc
action_is-same upload (unknown t) h = absurd cc
action_is-same mkdir upload h = absurd cc
action_is-same mkdir delete h = absurd cc
action_is-same mkdir rename h = absurd cc
action_is-same mkdir (unknown t) h = absurd cc
action_is-same delete upload h = absurd cc
action_is-same delete mkdir h = absurd cc
action_is-same delete rename h = absurd cc
action_is-same delete (unknown t) h = absurd cc
action_is-same rename upload h = absurd cc
action_is-same rename mkdir h = absurd cc
action_is-same rename delete h = absurd cc
action_is-same rename (unknown t) h = absurd cc
action_is-same (unknown s) upload h = absurd cc
action_is-same (unknown s) mkdir h = absurd cc
action_is-same (unknown s) delete h = absurd cc
action_is-same (unknown s) rename h = absurd cc

pub last-any :
    (p : Entry → Bool) (l : List Entry) (e : Entry) → p e ≡ true → any p (l ++ e ∷ []) ≡ true
last-any p [] e h = rw h refl
last-any p (x ∷ l) e h = elim (Bool-cases (p x)) [
  | inl hit ↦ rw hit refl
  | inr miss ↦ rw miss (last-any p l e h)
]

module _ (inode : ℕ) (a : Action) (n : Entry) where
  -- An upload that a new entry pushes out is one of the new entry's inode, and the new entry too.
  replaced :
      (j : ℕ) (e : Entry)
      → n.inode_id ≡ inode
      → n.action ≡ a
      → is_waiting n ≡ true
      → uploading j e ≡ true
      → duplicates inode a e ≡ true
      → uploading j n ≡ true
  replaced j e is_inode is_action waits hit dup =
      let same_action = action_is-same e.action a (ground (arith, dup)) in
      let still : action_is n.action upload ≡ true =
        rw (is_action, ← same_action) (ground (arith, hit)) in
      ground (arith, still)

  uploading-enqueued :
      (j : ℕ) (l : List Entry)
      → n.inode_id ≡ inode
      → n.action ≡ a
      → is_waiting n ≡ true
      → any (uploading j) l ≡ true
      → any (uploading j) (keep (λ e. not (duplicates inode a e)) l ++ n ∷ []) ≡ true
  uploading-enqueued j [] is_inode is_action waits h = absurd cc
  uploading-enqueued j (e ∷ l) is_inode is_action waits h =
      let later =
        λ (k : any (uploading j) l ≡ true). uploading-enqueued j l is_inode is_action waits k in
      elim (Bool-cases (duplicates inode a e)) [
        | inr stays ↦ rw stays (elim (Bool-cases (uploading j e)) [
          | inl hit ↦ rw hit refl
          | inr miss ↦ rw miss (later (rw miss at h))
        ])
        | inl dropped ↦ rw dropped (elim (Bool-cases (uploading j e)) [
          | inl hit ↦
              last-any (uploading j) (keep (λ f. not (duplicates inode a f)) l) n
                (replaced j e is_inode is_action waits hit dropped)
          | inr miss ↦ later (rw miss at h)
        ])
      ]

any-keep_rest :
    (p q : Entry → Bool) (l : List Entry)
    → ((e : Entry) → p e ≡ true → q e ≡ true)
    → any p l ≡ true
    → any p (keep q l) ≡ true
any-keep_rest p q [] h k = absurd cc
any-keep_rest p q (e ∷ l) h k = elim (Bool-cases (p e)) [
  | inl hit ↦ rw (h e hit, hit) refl
  | inr miss ↦
      let later = any-keep_rest p q l h (rw miss at k) in
      elim (Bool-cases (q e)) [ inl kept ↦ rw (kept, miss) later | inr gone ↦ rw gone later ]
]

pub delete_failed_upload_writebacks-Keeps :
    (d : Db) (i : ℕ) → Keeps d (delete_failed_upload_writebacks d i)
unfolding delete_failed_upload_writebacks get_inode_by_path has_active_writeback
delete_failed_upload_writebacks-Keeps d i = (
  (λ path r e. (r, e, (λ h. h), refl)),
  (λ inode h.
      any-keep_rest (uploading inode)
        (λ e. not (e.inode_id == i && (action_is e.action upload && is_gave_up e))) d.queue
        (λ e hit. ground (arith, hit)) h),
)

pub enqueue_writeback-Keeps :
    (d d' : Db) (inode : ℕ) (a : Action) (path : String) (x : Extra) (now : ℕ) (fresh : String)
    → action_is a rename ≡ false
    → enqueue_writeback d inode a path x now fresh ≡ some d'
    → Keeps d d'
unfolding get_inode_by_path has_active_writeback
enqueue_writeback-Keeps d d' inode a path x now fresh other e =
    let made = enqueued d inode a path x now fresh d' other e in
    rw made (
      (λ where_at r found. (r, found, (λ h. h), refl)),
      (λ j h.
          uploading-enqueued inode a (new_entry d.next_entry inode a path (with_key a fresh x) now)
            j d.queue refl refl refl h),
    )

-- What was just enqueued is on its way.
pub has_active-enqueued :
    (d d' : Db) (inode : ℕ) (path : String) (x : Extra) (now : ℕ) (fresh : String)
    → enqueue_writeback d inode upload path x now fresh ≡ some d'
    → has_active_writeback d' inode upload ≡ true
unfolding has_active_writeback
has_active-enqueued d d' inode path x now fresh e =
    let made = enqueued d inode upload path x now fresh d' refl e in
    let n = new_entry d.next_entry inode upload path (with_key upload fresh x) now in
    rw made (
      last-any (uploading inode) (keep (λ f. not (duplicates inode upload f)) d.queue) n
        (ground arith))

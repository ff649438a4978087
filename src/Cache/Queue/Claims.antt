-- ===== src/Cache/Queue/Claims.antt =====
-- Enqueuing replaces, and no entry is claimed twice.
use pigcloud_cli.Common.{
  ℕ, suc, String, List, [], ◌∷◌, ◌++◌, Bool, true, false, not, ◌≡◌, refl, ap, some, arith,
  same_refl, is_empty, keep, keep-append,
}
use pigcloud_cli.Cache.{Action, upload, mkdir, delete, rename, unknown, Extra, Entry, Db, action_is}
use pigcloud_cli.Cache.Queue.{duplicates, with_key, new_entry, enqueue_writeback}

action_is_refl : (a : Action) → action_is a a ≡ true
action_is_refl upload = refl
action_is_refl mkdir = refl
action_is_refl delete = refl
action_is_refl rename = refl
action_is_refl (unknown s) = same_refl s

module _ {A : Type 0} (p : A → Bool) where
  keep-keep-not : (l : List A) → keep p (keep (λ x. not (p x)) l) ≡ []
  keep-keep-not [] = refl
  keep-keep-not (x ∷ l) = ground (arith, keep-keep-not l)

  keep-not-keep-not :
      (l : List A) → keep (λ x. not (p x)) (keep (λ x. not (p x)) l) ≡ keep (λ x. not (p x)) l
  keep-not-keep-not [] = refl
  keep-not-keep-not (x ∷ l) = ground (arith, keep-not-keep-not l)

append_empty : {A : Type 0} → (l : List A) → l ++ [] ≡ l
append_empty [] = refl
append_empty (x ∷ l) = ap (λ t. x ∷ t) (append_empty l)

-- The queue as it stands, and its pending entries of that inode and action dropped.
abbrev pub others : Db → ℕ → Action → List Entry
others d inode a = keep (λ e. not (duplicates inode a e)) d.queue

pub enqueued :
    (d : Db) (inode : ℕ) (a : Action) (path : String) (x : Extra) (now : ℕ) (fresh : String)
    (d' : Db)
    → action_is a rename ≡ false
    → enqueue_writeback d inode a path x now fresh ≡ some d'
    → d' ≡ record d {
      queue = others d inode a ++ new_entry d.next_entry inode a path (with_key a fresh x) now ∷ [];
      next_entry = suc d.next_entry;
    }
unfolding enqueue_writeback
enqueued d inode a path x now fresh d' r h = ground arith

new_entry-duplicates :
    (i inode : ℕ) (a : Action) (path : String) (x : Extra) (now : ℕ)
    → duplicates inode a (new_entry i inode a path x now) ≡ true
new_entry-duplicates i inode a path x now = rw (action_is_refl a) (ground arith)

with_key-upload :
    (a : Action) (fresh : String) (x : Extra)
    → action_is a upload ≡ true
    → is_empty fresh ≡ false
    → is_empty (with_key a fresh x).idempotency_key ≡ false
with_key-upload a fresh x u n = ground arith

module _ (p : Entry → Bool) (l : List Entry) (e : Entry) (h : p e ≡ true) where
  kept_new : keep p (keep (λ x. not (p x)) l ++ e ∷ []) ≡ e ∷ []
  kept_new = rw (keep-append p (keep (λ x. not (p x)) l) (e ∷ []), keep-keep-not p l, h) refl

  kept_old : keep (λ x. not (p x)) (keep (λ x. not (p x)) l ++ e ∷ []) ≡ keep (λ x. not (p x)) l
  kept_old =
      rw (keep-append (λ x. not (p x)) (keep (λ x. not (p x)) l) (e ∷ []), keep-not-keep-not p l, h)
        (append_empty (keep (λ x. not (p x)) l))

-- An action other than a rename, queued where the mount is writable: the queue then holds one
-- pending entry of that inode and action, the new one, with the next id and, for an upload, an
-- idempotency key if a fresh one was given; all other entries stand as they did.
enqueue_writeback-replaces :
    (d : Db) (inode : ℕ) (a : Action) (path : String) (x : Extra) (now : ℕ) (fresh : String)
    (d' : Db)
    → action_is a rename ≡ false
    → enqueue_writeback d inode a path x now fresh ≡ some d'
    → (keep (duplicates inode a) d'.queue
        ≡ new_entry d.next_entry inode a path (with_key a fresh x) now ∷ [])
      × (keep (λ e. not (duplicates inode a e)) d'.queue
          ≡ keep (λ e. not (duplicates inode a e)) d.queue)
      × (action_is a upload ≡ true
          → is_empty fresh ≡ false
          → is_empty (with_key a fresh x).idempotency_key ≡ false)
      × (d'.inodes ≡ d.inodes)
      × (d'.next_entry ≡ suc d.next_entry)
enqueue_writeback-replaces d inode a path x now fresh d' r h =
    rw (enqueued d inode a path x now fresh d' r h) (
      let e = new_entry d.next_entry inode a path (with_key a fresh x) now in
      let there = new_entry-duplicates d.next_entry inode a path (with_key a fresh x) now in
      (
        kept_new (duplicates inode a) d.queue e there,
        kept_old (duplicates inode a) d.queue e there,
        with_key-upload a fresh x,
        refl,
        refl,
      ))

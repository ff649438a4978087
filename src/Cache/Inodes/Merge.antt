-- ===== src/Cache/Inodes/Merge.antt =====
-- What UpsertInode keeps of a stored row, and the order of the ids.
use pigcloud_cli.Common.{
  ℕ, String, List, [], ◌∷◌, ◌++◌, Bool, true, ◌≡◌, refl, sym, ◌∙◌, inl, inr, Option, none, some,
  arith, same, same_iff, if◌then◌else◌, Bool-cases, Option-cases,
}
use pigcloud_cli.Cache.{Inode, Db}
use pigcloud_cli.Cache.Inodes.{
  find, update, has_path, get_inode_by_path, merge, new_row, upsert_inode,
}

abbrev pub on_some {ℓ κ} : {A : Type ℓ} {B : Type κ} → (A → B) → Option A → Option B
on_some f none = none
on_some f (some a) = some (f a)

-- An update seen through a search that it does not disturb.
pub find-update :
    (q p : Inode → Bool) (f : Inode → Inode)
    → ((r : Inode) → q (f r) ≡ q r)
    → (l : List Inode) → find q (update p f l) ≡ on_some (λ r. if p r then f r else r) (find q l)
unfolding find update
find-update q p f h [] = refl
find-update q p f h (r ∷ rs) = ground (arith, h r, find-update q p f h rs)

find-append :
    (q : Inode → Bool) (l : List Inode) (n : Inode)
    → find q l ≡ none
    → find q (l ++ n ∷ []) ≡ (if q n then some n else none)
unfolding find
find-append q [] n h = refl
find-append q (r ∷ rs) n h = ground (arith, find-append q rs n)

pub find-append_some :
    (q : Inode → Bool) (l : List Inode) (n r : Inode)
    → find q l ≡ some r
    → find q (l ++ n ∷ []) ≡ some r
unfolding find
find-append_some q [] n r h = cc
find-append_some q (x ∷ xs) n r h = ground (arith, find-append_some q xs n r)

pub find-holds : (q : Inode → Bool) (l : List Inode) (r : Inode) → find q l ≡ some r → q r ≡ true
unfolding find
find-holds q [] r h = cc
find-holds q (x ∷ xs) r h = ground (arith, find-holds q xs r)

merge-path : (n r : Inode) → (merge n r).remote_path ≡ r.remote_path
unfolding merge
merge-path n r = refl

-- what UpsertInode makes of the row of its path
abbrev pub upserted : Inode → ℕ → Option Inode → Inode
upserted n i none = new_row n i
upserted n i (some old) = merge n old

upsert_fresh :
    (d : Db) (n : Inode) (path : String)
    → get_inode_by_path d n.remote_path ≡ none
    → find (has_path path) (d.inodes ++ new_row n d.next_inode ∷ []) ≡ (
        if same n.remote_path path then some (new_row n d.next_inode) else get_inode_by_path d path)
unfolding get_inode_by_path new_row
upsert_fresh d n path fresh = elim (Bool-cases (same n.remote_path path)) [
  | inl hit ↦ rw hit (
      rw
        (find-append (has_path path) d.inodes (new_row n d.next_inode)
          (rw ((same_iff n.remote_path path).0 hit) at fresh))
        (rw hit))
  | inr miss ↦ rw miss (elim (Option-cases (find (has_path path) d.inodes)) [
    | inl gone ↦
        rw (gone, find-append (has_path path) d.inodes (new_row n d.next_inode) gone) (rw miss)
    | inr (r, stored) ↦
        find-append_some (has_path path) d.inodes (new_row n d.next_inode) r stored ∙ sym stored
  ])
]

upsert_stored :
    (d : Db) (n old : Inode) (path : String)
    → get_inode_by_path d n.remote_path ≡ some old
    → find (has_path path) (update (has_path n.remote_path) (merge n) d.inodes)
      ≡ (if same n.remote_path path then some (merge n old) else get_inode_by_path d path)
unfolding get_inode_by_path
upsert_stored d n old path stored =
    find-update (has_path path) (has_path n.remote_path) (merge n) (λ r. unfold merge in refl)
      d.inodes
    ∙ elim (Option-cases (find (has_path path) d.inodes)) [
      | inl gone ↦ rw gone (ground (arith, same_iff n.remote_path path, stored, gone))
      | inr (r, found) ↦ rw found (
          ground (
            arith,
            find-holds (has_path path) d.inodes r found,
            find-holds (has_path n.remote_path) d.inodes old stored,
            same_iff n.remote_path path,
            same_iff r.remote_path path,
            same_iff r.remote_path n.remote_path,
            stored,
            found,
          ))
    ]

-- After an upsert the path of the given inode has the merged row, or a new one with the next
-- id, and every other path has the row that it had.
pub get_inode_by_path-upsert :
    (d : Db) (n : Inode) (path : String)
    → get_inode_by_path (upsert_inode d n).0 path ≡ (
        if same n.remote_path path
        then some (upserted n d.next_inode (get_inode_by_path d n.remote_path))
        else get_inode_by_path d path)
unfolding upsert_inode get_inode_by_path
get_inode_by_path-upsert d n path = elim (Option-cases (get_inode_by_path d n.remote_path)) [
  | inl fresh ↦ rw (fresh, upsert_inode) (upsert_fresh d n path fresh)
  | inr (old, stored) ↦ rw (stored, upsert_inode) (upsert_stored d n old path stored)
]

-- No upsert clears a pending edit, moves a stored row to another id, or changes its pin and the
-- time of its last access.
pub upsert_inode-keeps :
    (d : Db) (n : Inode) (path : String) (r : Inode)
    → get_inode_by_path d path ≡ some r
    → (s : Inode) × (get_inode_by_path (upsert_inode d n).0 path ≡ some s)
      × (r.dirty ≡ true → s.dirty ≡ true)
      × (s.id ≡ r.id)
      × (s.pinned ≡ r.pinned)
      × (s.last_access ≡ r.last_access)
upsert_inode-keeps d n path r stored = elim (Bool-cases (same n.remote_path path)) [
  | inl hit ↦
      let same_row : get_inode_by_path d n.remote_path ≡ some r =
        rw ((same_iff n.remote_path path).0 hit) stored in
      (
        merge n r,
        get_inode_by_path-upsert d n path ∙ rw (hit, same_row),
        (λ e. unfold merge in rw e),
        unfold merge in refl,
        unfold merge in refl,
        unfold merge in refl,
      )
  | inr miss ↦ (r, get_inode_by_path-upsert d n path ∙ rw miss stored, (λ e. e), refl, refl, refl)
]

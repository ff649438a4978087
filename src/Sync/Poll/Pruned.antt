-- ===== src/Sync/Poll/Pruned.antt =====
-- No poll takes a node with a pending edit, or its content: internal/mount/syncer/poller.go.
use pigcloud_cli.Common.{
  ℕ, String, List, [], ◌∷◌, true, false, not, ◌&&◌, ◌≡◌, refl, sym, ◌⊎◌, ◌∙◌, ap, subst, inl, inr,
  Option, none, some, arith, same, same_iff, if_both, if_true, if_false, keep, lookup, insert,
  lookup-insert, All, Bool-cases,
}
use pigcloud_cli.Cache.{Db, conflict, status_is}
use pigcloud_cli.Cache.Blobs.{Store}
use pigcloud_cli.Cache.Evict.{Machine}
use pigcloud_cli.Sync.Poll.Marked.{
  Marked, KeepsMarks, upsert_inode-KeepsMarks, delete_inode-Marked, poll_existing-KeepsMarks,
}
use pigcloud_cli.Sync.Poll.{
  Node, ListEntry, State, Names, Seen, locally_dirty, remote_changed, mark_conflict, drop_cached,
  take_over, poll_existing, Parent, poll_new, poll_named, poll_entries, is_there, prune_one, prune,
  collect, poll_dir,
}

-- The edit of the node is pending: the node is marked, or its row is.
abbrev pub Pending : Node → Db → Type 0
Pending n d = (n.dirty ≡ true) ⊎ Marked n.id n.remote_path d

-- The node has the mark, the content, the id and the path of the other.
abbrev pub KeepsNode : Node → Node → Type 0
KeepsNode n n' =
    (n'.dirty ≡ n.dirty)
    × (n'.content_hash ≡ n.content_hash)
    × (n'.cached ≡ n.cached)
    × (n'.id ≡ n.id)
    × (n'.remote_path ≡ n.remote_path)

-- The directory still has such a node under the name.
abbrev pub HoldsIn : String → Node → List (String × Node) → Type 0
HoldsIn name n l = (n' : Node) × (lookup name l ≡ some n') × KeepsNode n n'

abbrev pub Holds : String → Node → State → Type 0
Holds name n st = HoldsIn name n st.children × Pending n st.db

Pending-locally_dirty : (n : Node) (d : Db) → Pending n d → locally_dirty d n ≡ true
Pending-locally_dirty n d (inl dirty) = ground (arith, dirty)
Pending-locally_dirty n d (inr (r, found, dirty, at_path)) = rw found (ground (arith, dirty))

KeepsMarks-Pending : (n : Node) (d d' : Db) → KeepsMarks d d' → Pending n d → Pending n d'
KeepsMarks-Pending n d d' keeps (inl dirty) = inl dirty
KeepsMarks-Pending n d d' keeps (inr marked) = inr (keeps n.id n.remote_path marked)

poll_existing-KeepsNode :
    (m : Machine) (n : Node) (e : ListEntry) (d : Db) (s : Option Store)
    → locally_dirty d n ≡ true
    → KeepsNode n (poll_existing m n e d s).0
unfolding poll_existing mark_conflict
poll_existing-KeepsNode m n e d s dirty =
    let changed = remote_changed n e in
    let both : (locally_dirty d n && changed) ≡ changed = ground (arith, dirty) in
    let keeps = λ (t : Seen). KeepsNode n t.0 in
    let same_node : KeepsNode n n = (refl, refl, refl, refl, refl) in
    elim (Bool-cases changed) [
      | inl is_changed ↦
          subst keeps
            (sym
              (if_true (locally_dirty d n && changed) (mark_conflict n d s) _ (both ∙ is_changed)))
            (if_both keeps (status_is n.status conflict) (n, d, s) _ same_node same_node)
      | inr unchanged ↦
          subst keeps
            (sym
              (if_false (locally_dirty d n && changed) (mark_conflict n d s) _ (both ∙ unchanged)))
            (subst (λ t. keeps (take_over e t))
              (sym (if_false changed (drop_cached m n e d s) (n, d, s) unchanged)) same_node)
    ]

lookup-keep_other :
    (name gone : String) (l : List (String × Node))
    → same gone name ≡ false
    → lookup name (keep (λ c. not (same c.0 gone)) l) ≡ lookup name l
unfolding lookup
lookup-keep_other name gone [] h = refl
lookup-keep_other name gone ((k, n) ∷ l) h =
    ground
      (arith, lookup-keep_other name gone l, same_iff k gone, same_iff k name, same_iff gone name)

is_it : {q n : Node} → some q ≡ some n → q ≡ n
is_it h = cc

-- Nodes of other names have other paths.
abbrev pub OtherPaths : String → Node → List (String × Node) → Type 0
OtherPaths name n = All (λ c. same c.0 name ≡ false → same n.remote_path c.1.remote_path ≡ false)

module _ (m : Machine) (name : String) (n : Node) (old : List (String × Node))
    (there : lookup name old ≡ some n) where
  insert-HoldsIn :
      (l : List (String × Node)) (other : String) (new : Node)
      → same other name ≡ false
      → HoldsIn name n l
      → HoldsIn name n (insert other new l)
  insert-HoldsIn l other new miss (n', found, kept) =
      (n', lookup-insert other name new l ∙ rw miss found, kept)

  other_key :
      (p : Parent) (key : String) (e : ListEntry) (now : ℕ) (st : State) (o : Option Node)
      → same key name ≡ false
      → Holds name n st
      → Holds name n (poll_named m p key e now st o)
  unfolding poll_new
  other_key p key e now st none miss (held, pending) = (
    insert-HoldsIn st.children key _ miss held,
    KeepsMarks-Pending n st.db _ (upsert_inode-KeepsMarks st.db _) pending,
  )
  other_key p key e now st (some q) miss (held, pending) = (
    insert-HoldsIn st.children key _ miss held,
    KeepsMarks-Pending n st.db _ (poll_existing-KeepsMarks m q e st.db st.store) pending,
  )

  poll_named-Holds :
      (p : Parent) (key : String) (e : ListEntry) (now : ℕ) (st : State)
      → Holds name n st
      → Holds name n (poll_named m p key e now st (lookup key old))
  poll_named-Holds p key e now st h = elim (Bool-cases (same key name)) [
    | inl hit ↦
        let same_key : key ≡ name = (same_iff key name).0 hit in
        let there' : lookup key old ≡ some n = ap (λ k. lookup k old) same_key ∙ there in
        subst (λ o. Holds name n (poll_named m p key e now st o)) (sym there')
          (
            (
              (poll_existing m n e st.db st.store).0,
              lookup-insert key name _ st.children ∙ if_true (same key name) _ _ hit,
              poll_existing-KeepsNode m n e st.db st.store (Pending-locally_dirty n st.db h.1),
            ),
            KeepsMarks-Pending n st.db _ (poll_existing-KeepsMarks m n e st.db st.store) h.1,
          )
    | inr miss ↦ other_key p key e now st (lookup key old) miss h
  ]

  poll_entries-Holds :
      (p : Parent) (now : ℕ) (es : List (String × ListEntry)) (st : State)
      → Holds name n st
      → Holds name n (poll_entries m p old now es st)
  unfolding poll_entries
  poll_entries-Holds p now [] st h = h
  poll_entries-Holds p now ((key, e) ∷ es) st h =
      poll_entries-Holds p now es (poll_named m p key e now st (lookup key old))
        (poll_named-Holds p key e now st h)

  prune_one-Holds :
      (st : State) (key : String) (q : Node)
      → same key name ≡ false
      → same n.remote_path q.remote_path ≡ false
      → Holds name n st
      → Holds name n (prune_one m st key q)
  unfolding prune_one
  prune_one-Holds st key q miss other ((n', found, kept), inl dirty) =
      ((n', lookup-keep_other name key st.children miss ∙ found, kept), inl dirty)
  prune_one-Holds st key q miss other ((n', found, kept), inr marked) = (
    (n', lookup-keep_other name key st.children miss ∙ found, kept),
    inr (delete_inode-Marked st.db n.id n.remote_path q.remote_path other marked),
  )

  prune-Holds :
      (found : List (String × ListEntry)) (ns : List (String × Node)) (st : State)
      → All (λ c. lookup c.0 old ≡ some c.1) ns
      → OtherPaths name n ns
      → Holds name n st
      → Holds name n (prune m found ns st)
  unfolding prune
  prune-Holds found [] st one other h = h
  prune-Holds found ((key, q) ∷ ns) st one other h = prune-Holds found ns _ one.1 other.1 (
      if_both (Holds name n) (is_there (lookup key found)) st _ h
        (elim (Bool-cases (same key name)) [
          | inr miss ↦
              if_both (Holds name n) (locally_dirty st.db q) st _ h
                (prune_one-Holds st key q miss (other.0 miss) h)
          | inl hit ↦
              let same_node : q ≡ n =
                is_it (sym one.0 ∙ ap (λ k. lookup k old) ((same_iff key name).0 hit) ∙ there) in
              let is_dirty : locally_dirty st.db q ≡ true =
                rw same_node (Pending-locally_dirty n st.db h.1) in
              subst (Holds name n) (sym (if_true (locally_dirty st.db q) st _ is_dirty)) h
        ]))

-- The nodes are those that their names find, as in a map.
abbrev pub IsMap : List (String × Node) → Type 0
IsMap l = All (λ c. lookup c.0 l ≡ some c.1) l

-- Whatever a directory's listing says, a poll of it leaves every node that has a pending edit in the
-- directory under its name, with its mark, its id, its path and its cached content, and the edit is
-- still pending. An edit is pending where the node is marked as edited, or the row of its id is there
-- with its path and is marked as edited. This is where a name has one node, and nodes of other names
-- have other paths.
pub poll_dir-Holds :
    (m : Machine) (c : Names) (p : Parent) (now : ℕ) (listing : List ListEntry) (st : State)
    (name : String) (n : Node)
    → IsMap st.children
    → OtherPaths name n st.children
    → lookup name st.children ≡ some n
    → Pending n st.db
    → Holds name n (poll_dir m c p now listing st)
unfolding poll_dir
poll_dir-Holds m c p now listing st name n is_map other there pending =
    let (found, failed) = collect c listing ([], false) in
    let polled =
      poll_entries-Holds m name n st.children there p now found st
        ((n, there, (refl, refl, refl, refl, refl)), pending) in
    if_both (Holds name n) failed _ _ polled
      (prune-Holds m name n st.children there found st.children _ is_map other polled)

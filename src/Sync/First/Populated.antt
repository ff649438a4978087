-- ===== src/Sync/First/Populated.antt =====
-- What the listing of the remote tree keeps: internal/mount/syncer/downloader.go and
-- internal/mount/vfs/vfs.go.
use pigcloud_cli.Common.{
  ℕ, String, List, [], ◌∷◌, Bool, true, false, not, ◌&&◌, refl, Option, none, some, if◌then◌else◌,
  if_both, lookup,
}
use pigcloud_cli.Cache.{Db}
use pigcloud_cli.Cache.Inodes.{has_id, invalidate_cache, set_remote_version}
use pigcloud_cli.Sync.Kept.{
  Keeps, Keeps-refl, Keeps-trans, update-Keeps, upsert_inode-Keeps, mark_local_conflict-Keeps,
}
use pigcloud_cli.Sync.Poll.{
  Node, ListEntry, Names, Parent, decrypt_name, locally_dirty, pending_edits,
}
use pigcloud_cli.Sync.Download.Edits.{invalidate_cache-Keeps}
use pigcloud_cli.Sync.First.Populate.{
  Filled, has_new_version, fill_existing, fill_new, fill_named, is_skipped, fill_entry,
  fill_entries, populate_dir, Met, Remote, Below, met, nothing_below, below, loaded_nodes, read_dir,
  as_parent, after_read, after_tree, populate_remote_tree, populate_below,
}

set_remote_version-Keeps : (d : Db) (i : ℕ) (etag : String) → Keeps d (set_remote_version d i etag)
unfolding set_remote_version
set_remote_version-Keeps d i etag = update-Keeps (has_id i) _ (λ r. refl) (λ r. refl) (λ r h. h) d

fill_existing-Keeps :
    (name : String) (n : Node) (e : ListEntry) (f : Filled)
    → Keeps f.db (fill_existing name n e f).db
unfolding fill_existing
fill_existing-Keeps name n e f =
    let dirty = locally_dirty f.db n in
    let drops = not dirty && has_new_version n e in
    let d = if drops then invalidate_cache f.db n.id else f.db in
    let before : Keeps f.db d =
      if_both (Keeps f.db) drops (invalidate_cache f.db n.id) f.db
        (invalidate_cache-Keeps f.db n.id) (Keeps-refl f.db) in
    if_both (λ (t : Filled). Keeps f.db t.db) (dirty && has_new_version n e) _ _
      (mark_local_conflict-Keeps f.db n.id pending_edits)
      (Keeps-trans f.db d (set_remote_version d n.id e.etag) before
        (set_remote_version-Keeps d n.id e.etag))

fill_named-Keeps :
    (p : Parent) (name : String) (e : ListEntry) (now : ℕ) (f : Filled) (o : Option Node)
    → Keeps f.db (fill_named p name e now f o).db
unfolding fill_new
fill_named-Keeps p name e now f none = upsert_inode-Keeps f.db _
fill_named-Keeps p name e now f (some n) = fill_existing-Keeps name n e f

fill_entry-Keeps :
    (c : Names) (p : Parent) (e : ListEntry) (now : ℕ) (f : Filled)
    → Keeps f.db (fill_entry c p e now f).db
fill_entry-Keeps c p e now f =
    let name = decrypt_name c e.sealed_name in
    if_both (λ (t : Filled). Keeps f.db t.db) (is_skipped name) f _ (Keeps-refl f.db)
      (fill_named-Keeps p name e now (record f { seen = name ∷ f.seen }) (lookup name f.children))

fill_entries-Keeps :
    (c : Names) (p : Parent) (now : ℕ) (es : List ListEntry) (f : Filled)
    → Keeps f.db (fill_entries c p now es f).db
unfolding fill_entries
fill_entries-Keeps c p now [] f = Keeps-refl f.db
fill_entries-Keeps c p now (e ∷ es) f =
    let f' = fill_entry c p e now f in
    Keeps-trans f.db f'.db (fill_entries c p now es f').db (fill_entry-Keeps c p e now f)
      (fill_entries-Keeps c p now es f')

-- the database that a directory's listing leaves
abbrev listed_db : (List (String × Node) × Db) × Bool → Db
listed_db ((nodes, d), works) = d

loaded_nodes-Keeps :
    (c : Names) (p : Parent) (now : ℕ) (m : Met) (d : Db) (o : Option (List ListEntry))
    → Keeps d (listed_db (loaded_nodes c p now m d o))
unfolding populate_dir
loaded_nodes-Keeps c p now m d none = Keeps-refl d
loaded_nodes-Keeps c p now m d (some listing) =
    fill_entries-Keeps c p now listing (record { children = m.nodes; db = d; seen = [] })

read_dir-Keeps :
    (c : Names) (p : Parent) (now : ℕ) (m : Met) (d : Db)
    → Keeps d (listed_db (read_dir c p now m d))
unfolding read_dir
read_dir-Keeps c p now m d =
    if_both (λ t. Keeps d (listed_db t)) m.loaded ((m.nodes, d), true)
      (loaded_nodes c p now m d m.answer) (Keeps-refl d) (loaded_nodes-Keeps c p now m d m.answer)

after_read-Keeps :
    (next : List (String × Node) → Db → Db × Bool)
    → ((nodes : List (String × Node)) (e : Db) → Keeps e (next nodes e).0)
    → (d : Db) (t : (List (String × Node) × Db) × Bool) → Keeps d (listed_db t)
    → Keeps d (after_read next t).0
after_read-Keeps next kept d ((nodes, d'), true) h =
    Keeps-trans d d' (next nodes d').0 h (kept nodes d')
after_read-Keeps next kept d ((nodes, d'), false) h = h

after_tree-Keeps :
    (next : Db → Db × Bool)
    → ((e : Db) → Keeps e (next e).0)
    → (d : Db) (t : Db × Bool) → Keeps d t.0
    → Keeps d (after_tree next t).0
after_tree-Keeps next kept d (d', true) h = Keeps-trans d d' (next d').0 h (kept d')
after_tree-Keeps next kept d (d', false) h = h

mutual
  unfolding populate_remote_tree

  pub populate_remote_tree-Keeps :
      (c : Names) (now : ℕ) (r : Remote) (p : Parent) (d : Db)
      → Keeps d (populate_remote_tree c now r p d).0
  populate_remote_tree-Keeps c now (met m bs) p d =
      elim m.ended
        as (λ b.
          Keeps d
            (elim b as (λ x. Db × Bool) [
              | true ↦ (d, false)
              | false ↦ after_read (populate_below c now bs) (read_dir c p now m d)
            ]).0) [
              | true ↦ Keeps-refl d
              | false ↦
                  after_read-Keeps (populate_below c now bs) (populate_below-Keeps c now bs) d
                    (read_dir c p now m d) (read_dir-Keeps c p now m d)
            ]

  populate_below-Keeps :
      (c : Names) (now : ℕ) (bs : Below) (nodes : List (String × Node)) (d : Db)
      → Keeps d (populate_below c now bs nodes d).0
  populate_below-Keeps c now nothing_below nodes d = Keeps-refl d
  populate_below-Keeps c now (below name r bs) nodes d =
      elim (as_parent (lookup name nodes))
        as (λ o.
          Keeps d
            (elim o as (λ x. Db × Bool) [
              | none ↦ populate_below c now bs nodes d
              | some p ↦
                  after_tree (populate_below c now bs nodes) (populate_remote_tree c now r p d)
            ]).0) [
              | none ↦ populate_below-Keeps c now bs nodes d
              | some p ↦
                  after_tree-Keeps (populate_below c now bs nodes)
                    (populate_below-Keeps c now bs nodes) d (populate_remote_tree c now r p d)
                    (populate_remote_tree-Keeps c now r p d)
            ]

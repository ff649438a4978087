-- ===== src/Sync/First/Scanned.antt =====
-- What the scan for new local files keeps: internal/mount/syncer/downloader.go.
use pigcloud_cli.Common.{if_both, ℕ, String, true, false, refl, Option, none, some}
use pigcloud_cli.Cache.{pending, rejected, Inode, mkdir, upload, Db}
use pigcloud_cli.Cache.Inodes.{get_inode_by_path}
use pigcloud_cli.Sync.Names.{Refusal, validate_file, to_remote}
use pigcloud_cli.Sync.Kept.{Keeps, Keeps-refl, Keeps-trans, upsert_inode-Keeps}
use pigcloud_cli.Sync.Reconcile.{Setting, Info, LocalEntry, new_inode, new_file}
use pigcloud_cli.Sync.Reconcile.Walk.{Tree, Trees, node, nil, cons, skipped, has_own_path}
use pigcloud_cli.Sync.Reconcile.Edits.{added-Keeps}
use pigcloud_cli.Sync.First.{tracked, tracked_as, scan_entry, scanned, scan, scan_all}

tracked_as-Keeps :
    (s : Setting) (d : Db) (path : String) (e : LocalEntry) (f : Info) (now : ℕ)
    (o : Option Refusal)
    → Keeps d (tracked_as s d path e f now o)
tracked_as-Keeps s d path e f now (some why) =
    upsert_inode-Keeps d (new_file path e f rejected (s.wording why))
tracked_as-Keeps s d path e f now none =
    added-Keeps d (new_file path e f pending "") upload path now e.fresh refl

tracked-Keeps :
    (s : Setting) (d : Db) (path : String) (e : LocalEntry) (now : ℕ) (o : Option Info)
    → Keeps d (tracked s d path e now o)
tracked-Keeps s d path e now none = Keeps-refl d
tracked-Keeps s d path e now (some f) =
    tracked_as-Keeps s d path e f now (validate_file s.types e.name f.size)

scan_entry-Keeps :
    (s : Setting) (d : Db) (path : String) (e : LocalEntry) (now : ℕ) (o : Option Inode)
    → Keeps d (scan_entry s d path e now o)
scan_entry-Keeps s d path e now (some i) = Keeps-refl d
scan_entry-Keeps s d path e now none =
    if_both (Keeps d) e.is_dir _ _
      (added-Keeps d (new_inode path e.name true 0 now false pending "") mkdir path now e.fresh
        refl)
      (tracked-Keeps s d path e now e.info)

scanned-Keeps :
    (s : Setting) (base : String) (now : ℕ) (e : LocalEntry) (d : Db)
    → Keeps d (scanned s base now e d)
scanned-Keeps s base now e d =
    let path = to_remote base e.rel in
    if_both (Keeps d) (has_own_path base e) _ d
      (scan_entry-Keeps s d path e now (get_inode_by_path d path)) (Keeps-refl d)

mutual
  unfolding scan

  pub scan-Keeps :
      (s : Setting) (base : String) (now : ℕ) (t : Tree) (d : Db) → Keeps d (scan s base now t d)
  scan-Keeps s base now (node e below) d =
      let d' = scanned s base now e d in
      elim (skipped e)
        as (λ b.
          Keeps d (elim b as (λ c. Db) [ true ↦ d | false ↦ scan_all s base now below d' ])) [
            | true ↦ Keeps-refl d
            | false ↦
                Keeps-trans d d' (scan_all s base now below d') (scanned-Keeps s base now e d)
                  (scan_all-Keeps s base now below d')
          ]

  scan_all-Keeps :
      (s : Setting) (base : String) (now : ℕ) (ts : Trees) (d : Db)
      → Keeps d (scan_all s base now ts d)
  scan_all-Keeps s base now nil d = Keeps-refl d
  scan_all-Keeps s base now (cons t ts) d =
      let d' = scan s base now t d in
      Keeps-trans d d' (scan_all s base now ts d') (scan-Keeps s base now t d)
        (scan_all-Keeps s base now ts d')

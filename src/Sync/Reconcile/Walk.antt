-- ===== src/Sync/Reconcile/Walk.antt =====
-- The walk of the reconciler over the local folder: Reconcile of
-- internal/mount/syncer/reconciler.go.
use pigcloud_cli.Common.{
  ℕ, ◌+◌, String, Bool, true, false, not, ◌&&◌, ◌||◌, same, is_empty, if◌then◌else◌,
}
use pigcloud_cli.Sync.Names.{should_ignore, to_remote}
use pigcloud_cli.Sync.Reconcile.{Setting, State, LocalEntry, heal_entry}

-- The folder as WalkDir walks it.
mutual
  pub data Tree : Type 0 where
    node : LocalEntry → Trees → Tree

  pub data Trees : Type 0 where
    nil : Trees
    cons : Tree → Trees → Trees

-- what WalkDir's function leaves out, a directory with all below it
abbrev pub skipped : LocalEntry → Bool
skipped e = not e.safe || (should_ignore e.name || same e.name ".pigcloud")

-- whether the entry has a path of its own on the server
abbrev pub has_own_path : String → LocalEntry → Bool
has_own_path base e =
    not (is_empty (to_remote base e.rel)) && not (same (to_remote base e.rel) base)

abbrev pub counted : ℕ → State × Bool → State × ℕ
counted n (st, healed) = (st, if healed then n + 1 else n)

abbrev pub visited : Setting → String → ℕ → LocalEntry → State × ℕ → State × ℕ
visited s base now e (st, n) =
    if has_own_path base e
    then counted n (heal_entry s st (to_remote base e.rel) e now)
    else (st, n)

-- Reconcile: the state, and how many entries it healed; a walk that is not cancelled
unfoldable mutual
  pub walk : Setting → String → ℕ → Tree → State × ℕ → State × ℕ
  walk s base now (node e below) acc = elim (skipped e) [
    | true ↦ acc
    | false ↦ walk_all s base now below (visited s base now e acc)
  ]

  pub walk_all : Setting → String → ℕ → Trees → State × ℕ → State × ℕ
  walk_all s base now nil acc = acc
  walk_all s base now (cons t ts) acc = walk_all s base now ts (walk s base now t acc)

unfoldable pub reconcile : Setting → String → ℕ → Tree → State → State × ℕ
reconcile s base now t st = walk s base now t (st, 0)

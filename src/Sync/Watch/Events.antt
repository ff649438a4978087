-- ===== src/Sync/Watch/Events.antt =====
-- Events that remove nothing lose no edit: internal/mount/syncer/watcher.go.
use pigcloud_cli.Common.{
  if_both, if_false, ℕ, String, Bool, true, false, not, ◌||◌, ◌≡◌, refl, sym, subst, Option, none,
  some,
}
use pigcloud_cli.Cache.{pending, mkdir}
use pigcloud_cli.Sync.Kept.{Keeps, Keeps-refl, Keeps-trans}
use pigcloud_cli.Sync.Names.{should_ignore, has_prefix, to_remote_path}
use pigcloud_cli.Sync.Reconcile.{Info, new_inode}
use pigcloud_cli.Sync.Reconcile.Edits.{added-Keeps}
use pigcloud_cli.Sync.Watch.{
  Setting, State, Local, Found, found, Founds, nil, cons, Event, handle_write, write_found,
  create_dir, is_new_dir, is_left_out, is_seen, handle_create, enqueue_children, handle_event,
  schedule_sync, handle_remove, local_of,
}

-- the database of a later state keeps that of an earlier one
abbrev KeepsFrom : State → State → Type 0
KeepsFrom st st' = Keeps st.cache.db st'.cache.db

same_state : (st : State) → KeepsFrom st st
same_state st = Keeps-refl st.cache.db

scheduled : (st : State) (rel : String) → KeepsFrom st (schedule_sync st rel)
unfolding schedule_sync
scheduled st rel = same_state st

write_found-Keeps : (st : State) (l : Local) (o : Option Info) → KeepsFrom st (write_found st l o)
write_found-Keeps st l none = same_state st
write_found-Keeps st l (some f) =
    if_both (KeepsFrom st) l.is_dir st _ (same_state st) (scheduled st l.rel)

handle_write-Keeps : (st : State) (l : Local) → KeepsFrom st (handle_write st l)
unfolding handle_write
handle_write-Keeps st l =
    if_both (KeepsFrom st) (not l.safe) st _ (same_state st) (write_found-Keeps st l l.info)

create_dir-Keeps :
    (st : State) (path : String) (l : Local) (now : ℕ) → KeepsFrom st (create_dir st path l now)
unfolding create_dir
create_dir-Keeps st path l now =
    added-Keeps st.cache.db (new_inode path l.name true 0 now false pending "") mkdir path now
      l.fresh refl

-- what both cases keep
either_way :
    (st : State) (b : Bool) (p q : State)
    → KeepsFrom st p
    → KeepsFrom st q
    → KeepsFrom st (elim b [ true ↦ p | false ↦ q ])
either_way st true p q hp hq = hp
either_way st false p q hp hq = hq

mutual
  unfolding handle_create enqueue_children

  handle_create-Keeps :
      (s : Setting) (now : ℕ) (here : Found) (st : State)
      → KeepsFrom st (handle_create s now here st)
  handle_create-Keeps s now (found l below) st =
      let st' = create_dir st (to_remote_path s.base l.rel) l now in
      either_way st (is_seen l l.info) _ st
        (either_way st l.is_dir _ (schedule_sync st l.rel)
          (either_way st (is_new_dir s st l) (enqueue_children s now below st') st
            (Keeps-trans st.cache.db st'.cache.db (enqueue_children s now below st').cache.db
              (create_dir-Keeps st (to_remote_path s.base l.rel) l now)
              (enqueue_children-Keeps s now below st'))
            (same_state st))
          (scheduled st l.rel))
        (same_state st)

  enqueue_children-Keeps :
      (s : Setting) (now : ℕ) (fs : Founds) (st : State)
      → KeepsFrom st (enqueue_children s now fs st)
  enqueue_children-Keeps s now nil st = same_state st
  enqueue_children-Keeps s now (cons (found l below) fs) st =
      let here = handle_create s now (found l below) st in
      let st' : State = elim (is_left_out l) [
        | true ↦ st
        | false ↦ elim l.is_dir [ true ↦ here | false ↦ schedule_sync st l.rel ]
      ] in
      let visited = either_way st (is_left_out l) st _ (same_state st) (
        either_way st l.is_dir here (schedule_sync st l.rel)
          (handle_create-Keeps s now (found l below) st) (scheduled st l.rel)) in
      Keeps-trans st.cache.db st'.cache.db (enqueue_children s now fs st').cache.db visited
        (enqueue_children-Keeps s now fs st')

-- Whatever stands in the folder, an event that is neither a removal nor a renaming takes no row out
-- of the database, moves none to another path or id and clears no pending edit; and an inode that
-- had an upload waiting or claimed in the queue still has one.
pub handle_event-Keeps :
    (s : Setting) (now : ℕ) (v : Event) (suppressed : Bool) (here : Found) (st : State)
    → (v.removed || v.renamed) ≡ false
    → Keeps st.cache.db (handle_event s now v suppressed here st).cache.db
unfolding handle_event
handle_event-Keeps s now v suppressed here st other =
    let l = local_of here in
    let from = KeepsFrom st in
    let stays = same_state st in
    if_both from (should_ignore l.name) st _ stays (
      if_both from (has_prefix l.rel ".pigcloud") st _ stays (
        if_both from suppressed st _ stays (
          if_both from v.created (handle_create s now here st) _ (handle_create-Keeps s now here st)
            (if_both from v.written (handle_write st l) _ (handle_write-Keeps st l) (
              subst from
                (sym (if_false (v.removed || v.renamed) (handle_remove s st l now) st other))
                stays)))))

-- ===== src/Cache/Evict/Swept.antt =====
-- GCOrphans of internal/mount/cache/eviction.go.
use pigcloud_cli.Common.{
  ℕ, String, List, [], ◌∷◌, Bool, true, false, not, ◌&&◌, ◌||◌, ◌≡◌, refl, ◌∙◌, arith, same,
  same_iff, is_empty, any, map, Bool-cases, inl, inr,
}
use pigcloud_cli.Cache.{Db}
use pigcloud_cli.Cache.Inodes.{cached_hash}
use pigcloud_cli.Cache.Blobs.{Store, has, remove, list_hashes, is_named}
use pigcloud_cli.Cache.Evict.{Machine, sweep, gc_orphans}
use pigcloud_cli.Cache.Evict.Backed.{has-remove}

-- A blob that a sweep leaves where it finds it.
abbrev pub stays : Machine → Db → String → Bool
stays m d hash = cached_hash d hash || (is_empty hash || m.stuck hash)

not_there : (a e n : Bool) → ((a && e) && (n || e)) ≡ (a && e)
not_there a true n = ground arith
not_there a false n = ground arith

and_true : (a b : Bool) → ((a && true) && b) ≡ (a && b)
and_true a b = ground arith

kept-lem :
    (m : Machine) (d : Db) (a : Bool) (h hash : String) (hs : List String)
    → cached_hash d h ≡ true
    → (a && (not (any (λ x. same x hash) hs) || stays m d hash))
      ≡ (a && (not (any (λ x. same x hash) (h ∷ hs)) || stays m d hash))
kept-lem m d a h hash hs bound = elim (Bool-cases (same h hash)) [
  | inl hit ↦
      let bound' : cached_hash d hash ≡ true = rw ((same_iff h hash).0 hit) at bound in
      rw (hit, bound') (ground arith)
  | inr miss ↦ rw miss refl
]

removed-lem :
    (m : Machine) (d : Db) (s : Store) (h hash : String) (hs : List String)
    → cached_hash d h ≡ false
    → (has (remove m.stuck s h).0 hash && (not (any (λ x. same x hash) hs) || stays m d hash))
      ≡ (has s hash && (not (any (λ x. same x hash) (h ∷ hs)) || stays m d hash))
removed-lem m d s h hash hs loose = elim (Bool-cases (same h hash)) [
  | inl hit ↦
      let named : h ≡ hash = (same_iff h hash).0 hit in
      let loose' : cached_hash d hash ≡ false = rw named at loose in
      rw (has-remove m.stuck s h hash, hit)
        (rw (named, loose')
          (not_there (has s hash) (is_empty hash || m.stuck hash)
            (not (any (λ x. same x hash) hs))))
  | inr miss ↦ rw (has-remove m.stuck s h hash, miss) (and_true (has s hash) _)
]

has-sweep :
    (m : Machine) (d : Db) (s : Store) (hash : String) (hs : List String)
    → has (sweep m d s hs).0 hash
      ≡ (has s hash && (not (any (λ x. same x hash) hs) || stays m d hash))
unfolding sweep
has-sweep m d s hash [] = ground arith
has-sweep m d s hash (h ∷ hs) = elim (Bool-cases (cached_hash d h)) [
  | inl bound ↦
      rw (bound, sweep) (has-sweep m d s hash hs ∙ kept-lem m d (has s hash) h hash hs bound)
  | inr loose ↦
      rw (loose, sweep)
        (has-sweep m d (remove m.stuck s h).0 hash hs ∙ removed-lem m d s h hash hs loose)
]

any-names :
    (hash : String) (l : List (String × ℕ))
    → any (λ x. same x hash) (map (λ b. b.0) l) ≡ any (is_named hash) l
any-names hash [] = refl
any-names hash (b ∷ l) = rw (any-names hash l) refl

-- A sweep removes the blobs that no cached row names, and no others: afterwards a blob is there
-- if it was and a cached row has its hash, or its file cannot be removed, or it has no name.
pub has-gc_orphans :
    (m : Machine) (d : Db) (s : Store) (hash : String)
    → has (gc_orphans m d s).0 hash
      ≡ (has s hash && (cached_hash d hash || (is_empty hash || m.stuck hash)))
unfolding gc_orphans list_hashes has
has-gc_orphans m d s hash =
    has-sweep m d s hash (list_hashes s) ∙ rw (any-names hash s.blobs) (ground arith)

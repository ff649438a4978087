-- ===== src/Cache/Chunks/Held.antt =====
-- What the chunk cache hands out is what was put there: internal/mount/cache/store.go.
use pigcloud_cli.Common.{
  List, [], ◌∷◌, ◌++◌, true, false, ◌≡◌, refl, sym, ◌∙◌, ◌⊎◌, inl, inr, none, some, arith, ltb,
  same_iff, length, Bool-cases, Option-cases,
}
use pigcloud_cli.Pins.Codec.{Bytes}
use pigcloud_cli.Cache.Chunks.{
  ChunkKey, same_key, Chunks, chunk_cache_max, find_chunk, forget, chunk_cache_get, trim,
  chunk_cache_put,
}

find-forget_self : (k : ChunkKey) (l : List (ChunkKey × Bytes)) → find_chunk k (forget k l) ≡ none
unfolding find_chunk forget
find-forget_self k [] = refl
find-forget_self k ((j, p) ∷ l) = ground (arith, find-forget_self k l)

find-forget_other :
    (k j : ChunkKey) (l : List (ChunkKey × Bytes))
    → same_key k j ≡ false
    → find_chunk j (forget k l) ≡ find_chunk j l
unfolding find_chunk forget
find-forget_other k j [] h = refl
find-forget_other (s, m) (t, n) (((u, o), p) ∷ l) h =
    ground (arith, same_iff s t, same_iff u s, same_iff u t, find-forget_other (s, m) (t, n) l h)

pub same_key-same : (k j : ChunkKey) → same_key k j ≡ true → k ≡ j
same_key-same (s, m) (t, n) h = ground (arith, same_iff s t)

find-forget :
    (k j : ChunkKey) (l : List (ChunkKey × Bytes)) (q : Bytes)
    → find_chunk j (forget k l) ≡ some q
    → find_chunk j l ≡ some q
find-forget k j l q h = elim (Bool-cases (same_key k j)) [
  | inl hit ↦ absurd (cc (sym (rw (same_key-same k j hit) at h), find-forget_self j l))
  | inr miss ↦ sym (find-forget_other k j l miss) ∙ h
]

find-trim :
    (j : ChunkKey) (ks : List ChunkKey) (l : List (ChunkKey × Bytes)) (q : Bytes)
    → find_chunk j (trim l ks).held ≡ some q
    → find_chunk j l ≡ some q
unfolding trim
find-trim j [] l q h = h
find-trim j (k ∷ ks) l q h = elim (Bool-cases (ltb chunk_cache_max (length (k ∷ ks)))) [
  | inl long ↦ find-forget k j l q (find-trim j ks (forget k l) q (rw (long, trim) at h))
  | inr short ↦ rw (short, trim) at h
]

find-stored :
    (k j : ChunkKey) (p q : Bytes) (l : List (ChunkKey × Bytes))
    → find_chunk j ((k, p) ∷ forget k l) ≡ some q
    → ((same_key k j ≡ true) × (q ≡ p)) ⊎ (find_chunk j l ≡ some q)
unfolding find_chunk
find-stored k j p q l h = elim (Bool-cases (same_key k j)) [
  | inl hit ↦ inl (hit, cc (rw hit at h))
  | inr miss ↦ inr (find-forget k j l q (rw miss at h))
]

-- A chunk that a put made the cache answer with is the one that was put, or was there before.
pub chunk_cache_get-put :
    (c : Chunks) (k j : ChunkKey) (p q : Bytes)
    → chunk_cache_get (chunk_cache_put c k p) j ≡ some q
    → ((same_key k j ≡ true) × (q ≡ p)) ⊎ (chunk_cache_get c j ≡ some q)
unfolding chunk_cache_get chunk_cache_put
chunk_cache_get-put c k j p q h = elim (Option-cases (find_chunk k c.held)) [
  | inr (old, there) ↦ find-stored k j p q c.held (rw (there, chunk_cache_put) at h)
  | inl fresh ↦
      elim (find-stored k j p q (trim c.held (c.order ++ k ∷ [])).held
        (rw (fresh, chunk_cache_put) at h)) [
          | inl put ↦ inl put
          | inr before ↦ inr (find-trim j (c.order ++ k ∷ []) c.held q before)
        ]
]

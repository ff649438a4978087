-- ===== src/Cache/Chunks/Reads.antt =====
-- A read through the chunks is a slice of the content: internal/mount/cache/store.go.
use native.Mathlib.Nat.{mod-add-div', mod-lt}
use pigcloud_cli.Common.{
  ℕ, zero, suc, ◌+◌, ◌-◌, ◌*◌, ◌/◌, ◌≤◌, ◌<◌, String, [], ◌++◌, true, false, ◌≡◌, refl, sym, ◌∙◌,
  ap, subst, ◌⊎◌, inl, inr, some, arith, min, ltb, ltb→lt, ◌==◌, ==_iff, if◌then◌else◌, length,
  length-take, length-drop, take, drop, Bool-cases, Option-cases,
}
use pigcloud_cli.Pins.Codec.{Bytes}
use pigcloud_cli.Cache.Chunks.{
  ChunkKey, Chunks, chunk_cache_get, chunk_cache_put, Answer, plain, past_end, Read, read, Obtained,
  chunk, stop, obtain, slice, read_chunks, read_at,
}
use pigcloud_cli.Cache.Chunks.Slices.{take_same, take-by, read-slice}
use pigcloud_cli.Cache.Chunks.Held.{chunk_cache_get-put, same_key-same}

Obtained-cases :
    (o : Obtained) → ((r : Read) × (o ≡ stop r)) ⊎ ((p : Bytes) × (c : Chunks) × (o ≡ chunk p c))
Obtained-cases (stop r) = inl (r, refl)
Obtained-cases (chunk p c) = inr (p, c, refl)

-- Chunks of `z` bytes of the content `bs`; the file answers with them, and the cache holds no
-- others for its hash.
module _ (z : ℕ) (bs : Bytes) where
  abbrev pub chunk_of : ℕ → Bytes
  chunk_of i = take z (drop (i * z) bs)

  abbrev pub Honest : (ℕ → Answer) → Type 0
  Honest f = (i : ℕ) → f i ≡ (if ltb (i * z) (length bs) then plain (chunk_of i) else past_end)

  abbrev pub Faithful : String → Chunks → Type 0
  Faithful hash c =
      (i : ℕ) (p : Bytes)
      → chunk_cache_get c (hash, i) ≡ some p
      → (ltb (i * z) (length bs) ≡ true) × (p ≡ chunk_of i)

  module _ (f : ℕ → Answer) (hash : String) (honest : Honest f) (positive : 0 < z) where
    put-Faithful :
        (c : Chunks) (i : ℕ)
        → Faithful hash c
        → ltb (i * z) (length bs) ≡ true
        → Faithful hash (chunk_cache_put c (hash, i) (chunk_of i))
    put-Faithful c i h there j p e =
        elim (chunk_cache_get-put c (hash, i) (hash, j) (chunk_of i) p e) [
          | inr before ↦ h j p before
          | inl (hit, new) ↦
              let same_index : i ≡ j =
                ap (λ (k : ChunkKey). k.1) (same_key-same (hash, i) (hash, j) hit) in
              (rw same_index at there, rw same_index at new)
        ]

    -- A turn gets the chunk of the content, or finds its end.
    abbrev Right : ℕ → Bytes → Obtained → Type 0
    Right i result (chunk p c) =
        (ltb (i * z) (length bs) ≡ true) × (p ≡ chunk_of i) × Faithful hash c
    Right i result (stop r) = (ltb (i * z) (length bs) ≡ false) × (r ≡ read result)

    obtain-Right :
        (c : Chunks) (i : ℕ) (result : Bytes)
        → Faithful hash c
        → Right i result (obtain (some f) (hash, i) c result)
    unfolding obtain
    obtain-Right c i result h = elim (Option-cases (chunk_cache_get c (hash, i))) [
      | inr (p, held) ↦ rw (held, obtain) ((h i p held).0, (h i p held).1, h)
      | inl missing ↦
          rw (missing, obtain)
            (elim (Bool-cases (ltb (i * z) (length bs))) [
              | inl inside ↦ rw (honest i, inside) (inside, refl, put-Faithful c i h inside)
              | inr outside ↦ rw (honest i, outside) (outside, refl)
            ])
    ]

    length-chunk_of : (i : ℕ) → length (chunk_of i) ≡ min z (length bs - i * z)
    length-chunk_of i = length-take z (drop (i * z) bs) ∙ ap (min z) (length-drop (i * z) bs)

    module _ (off size : ℕ) where
      abbrev so_far : ℕ → Bytes
      so_far at = take (min size (at - off)) (drop off bs)

      reached_range : (at : ℕ) → off + size ≤ at → so_far at ≡ take size (drop off bs)
      reached_range at h = take-by (min size (at - off)) size (drop off bs) (omega arith)

      reached_end : (at : ℕ) → length bs ≤ at → so_far at ≡ take size (drop off bs)
      reached_end at h = elim (Bool-cases (ltb (at - off) size)) [
        | inr past ↦ take-by (min size (at - off)) size (drop off bs) (ground arith)
        | inl short ↦
            let lt = ltb→lt (at - off) size short in
            take_same (min size (at - off)) size (drop off bs)
              (inr (rw (length-drop off bs) (omega arith, omega arith)))
      ]

      abbrev Reads : Read × Chunks → Type 0
      Reads t = (t.0 ≡ read (take size (drop off bs))) × Faithful hash t.1

      next : (i : ℕ) → i * z + z ≡ suc i * z
      next i = omega arith

      nonempty : (i : ℕ) → ltb (i * z) (length bs) ≡ true → (length (chunk_of i) == 0) ≡ false
      nonempty i h = rw (length-chunk_of i) (ground (arith, ltb→lt (i * z) (length bs) h))

      last_chunk : (i : ℕ) → ltb (length (chunk_of i)) z ≡ true → length bs ≤ i * z + z
      last_chunk i h = omega (arith, ltb→lt (length (chunk_of i)) z h, length-chunk_of i)

      joined :
          (i : ℕ)
          → off < i * z + z
          → ltb (i * z) (off + size) ≡ true
          → so_far (i * z) ++ slice off (off + size) (i * z) (chunk_of i) ≡ so_far (i * z + z)
      joined i near more =
          let lt = ltb→lt (i * z) (off + size) more in
          ap (λ t. t ++ slice off (off + size) (i * z) (chunk_of i))
            (take-by (min size (i * z - off)) (i * z - off) (drop off bs) (omega arith))
          ∙ read-slice z off size (i * z) bs (omega arith) near

      less :
          (i fuel : ℕ)
          → (off + size) - i * z < suc fuel
          → ltb (i * z) (off + size) ≡ true
          → (off + size) - suc i * z < fuel
      less i fuel short more =
          let lt = ltb→lt (i * z) (off + size) more in omega (arith, next i, lt, short, positive)

      near_next : (i : ℕ) → off < i * z + z → off < suc i * z + z
      near_next i near = omega (arith, next i, near)

      read_chunks-Reads :
          (fuel idx : ℕ) (c : Chunks)
          → (off + size) - idx * z < fuel
          → off < idx * z + z
          → Faithful hash c
          → Reads (read_chunks z (some f) hash off (off + size) fuel idx c (so_far (idx * z)))
      unfolding read_chunks
      read_chunks-Reads zero idx c short near h = absurd (omega arith)
      read_chunks-Reads (suc fuel) idx c short near h =
          elim (Bool-cases (ltb (idx * z) (off + size))) [
            | inr over ↦
                rw (over, read_chunks) (ap read (reached_range (idx * z) (ground arith)), h)
            | inl more ↦
                let right = obtain-Right c idx (so_far (idx * z)) h in
                rw (more, read_chunks)
                  (elim (Obtained-cases (obtain (some f) (hash, idx) c (so_far (idx * z)))) [
                    | inl (r, stopped) ↦
                        let (outside, is_read) =
                          subst (Right idx (so_far (idx * z))) stopped right in
                        rw stopped (is_read ∙ ap read (reached_end (idx * z) (ground arith)), h)
                    | inr (p, c', got) ↦
                        let (inside, is_chunk, faithful) =
                          subst (Right idx (so_far (idx * z))) got right in
                        let has_some : (length p == 0) ≡ false =
                          rw is_chunk (nonempty idx inside) in
                        let extended : so_far (idx * z) ++ slice off (off + size) (idx * z) p
                            ≡ so_far (idx * z + z) =
                          rw is_chunk (joined idx near more) in
                        rw got (
                          rw has_some (elim (Bool-cases (ltb (length p) z)) [
                            | inl last ↦
                                rw (last, extended)
                                  (
                                    ap read (
                                        reached_end (idx * z + z)
                                          (last_chunk idx (rw is_chunk at last))),
                                    faithful,
                                  )
                            | inr whole ↦
                                rw (whole, extended, next idx)
                                  (read_chunks-Reads fuel (suc idx) c' (less idx fuel short more)
                                    (near_next idx near) faithful)
                          ]))
                  ])
          ]

      read_chunks_first :
          (fuel idx : ℕ) (c : Chunks)
          → (off + size) - idx * z < fuel
          → idx * z ≤ off
          → off < idx * z + z
          → Faithful hash c
          → Reads (read_chunks z (some f) hash off (off + size) fuel idx c [])
      read_chunks_first fuel idx c short below near h =
          subst (λ t. Reads (read_chunks z (some f) hash off (off + size) fuel idx c t))
            (take-by (min size (idx * z - off)) 0 (drop off bs) (omega arith))
            (read_chunks-Reads fuel idx c short near h)

-- A read through the chunks gives the bytes of the content from the offset on, as many as asked
-- for or as there are: where the file answers with the content's chunks, of any positive size, and
-- the chunk cache holds none but these for its hash. The cache then still does. Offsets and sizes are
-- numbers without a bound, whose sum does not wrap.
pub read_at-content :
    (z : ℕ) (bs : Bytes) (f : ℕ → Answer) (hash : String) (off size : ℕ) (c : Chunks)
    → 0 < z
    → Honest z bs f
    → Faithful z bs hash c
    → let (r, c') = read_at z (some f) hash off size c in
      (r ≡ read (take size (drop off bs))) × Faithful z bs hash c'
unfolding read_at
read_at-content z bs f hash off size c positive honest h = elim (Bool-cases (size == 0)) [
  | inl nothing ↦
      rw nothing (ap read (sym (take-by size 0 (drop off bs) ((==_iff size 0).0 nothing))), h)
  | inr some_bytes ↦ rw some_bytes (
      read_chunks_first z bs f hash honest positive off size (suc (size + z)) (off / z) c
        (omega (arith, mod-add-div' off z, mod-lt off positive)) (omega (arith, mod-add-div' off z))
        (omega (arith, mod-add-div' off z, mod-lt off positive)) h)
]

-- ===== src/Cache/Chunks/Slices.antt =====
-- Slices of chunks as slices of the content: internal/mount/cache/store.go.
use pigcloud_cli.Common.{
  ℕ, zero, suc, ◌+◌, ◌-◌, ◌≤◌, ◌<◌, [], ◌∷◌, ◌++◌, ◌≡◌, refl, sym, ◌∙◌, ap, ◌⊎◌, inl, inr, arith,
  min, ltb, ltb→lt, if◌then◌else◌, length, length-take, length-drop, take, drop, Bool-cases,
}
use pigcloud_cli.Pins.Codec.{Bytes}
use pigcloud_cli.Cache.Chunks.{slice}

abbrev pub no_bytes : Bytes
no_bytes = []

take-none : (n : ℕ) → take n no_bytes ≡ no_bytes
take-none zero = refl
take-none (suc n) = refl

pub drop-none : (n : ℕ) → drop n no_bytes ≡ no_bytes
drop-none zero = refl
drop-none (suc n) = refl

pub take-by : (a b : ℕ) (l : Bytes) → a ≡ b → take a l ≡ take b l
take-by a b l e = rw e refl

drop-by : (a b : ℕ) (l : Bytes) → a ≡ b → drop a l ≡ drop b l
drop-by a b l e = rw e refl

take-take_le : (a b : ℕ) (l : Bytes) → take a (take b l) ≡ take (min a b) l
take-take_le zero b l = sym (take-by (min 0 b) 0 l (omega arith))
take-take_le (suc a) zero l = sym (take-by (min (suc a) 0) 0 l (omega arith))
take-take_le (suc a) (suc b) [] = sym (take-none (min (suc a) (suc b)))
take-take_le (suc a) (suc b) (x ∷ l) =
    ap (λ t. x ∷ t) (take-take_le a b l)
    ∙ sym (take-by (min (suc a) (suc b)) (suc (min a b)) (x ∷ l) (omega arith))

drop-take_le : (a b : ℕ) (l : Bytes) → drop a (take b l) ≡ take (b - a) (drop a l)
drop-take_le zero b l = take-by b (b - 0) l (omega arith)
drop-take_le (suc a) zero l = sym (take-by (0 - suc a) 0 (drop (suc a) l) (omega arith))
drop-take_le (suc a) (suc b) [] = sym (take-none (suc b - suc a))
drop-take_le (suc a) (suc b) (x ∷ l) =
    drop-take_le a b l ∙ take-by (b - a) (suc b - suc a) (drop a l) (omega arith)

drop-drop : (a b : ℕ) (l : Bytes) → drop a (drop b l) ≡ drop (b + a) l
drop-drop a zero l = drop-by a (0 + a) l (omega arith)
drop-drop a (suc b) [] = drop-none a ∙ sym (drop-none (suc b + a))
drop-drop a (suc b) (x ∷ l) =
    drop-drop a b l ∙ sym (drop-by (suc b + a) (suc (b + a)) (x ∷ l) (omega arith))

take-add : (a b : ℕ) (l : Bytes) → take a l ++ take b (drop a l) ≡ take (a + b) l
take-add zero b l = take-by b (0 + b) l (omega arith)
take-add (suc a) b [] = take-none b ∙ sym (take-none (suc a + b))
take-add (suc a) b (x ∷ l) =
    ap (λ t. x ∷ t) (take-add a b l) ∙ sym (take-by (suc a + b) (suc (a + b)) (x ∷ l) (omega arith))

pub take-full : (n : ℕ) (l : Bytes) → length l ≤ n → take n l ≡ l
take-full zero [] h = refl
take-full (suc n) [] h = refl
take-full zero (x ∷ l) h = absurd (omega arith)
take-full (suc n) (x ∷ l) h = ap (λ t. x ∷ t) (take-full n l (omega arith))

-- Where both reach the end, or are one number.
pub take_same :
    (a b : ℕ) (l : Bytes) → (a ≡ b) ⊎ ((length l ≤ a) × (length l ≤ b)) → take a l ≡ take b l
take_same a b l (inl e) = rw e refl
take_same a b l (inr h) = take-full a l h.0 ∙ sym (take-full b l h.1)

guarded_take :
    (start finish : ℕ) (l : Bytes)
    → (if ltb start finish then take (finish - start) l else []) ≡ take (finish - start) l
guarded_take start finish l = elim (Bool-cases (ltb start finish)) [
  | inl more ↦ rw more refl
  | inr less ↦ rw less (take-by 0 (finish - start) l (ground arith))
]

-- The three bounds of a slice: the range, the chunk, and the content.
slice_bounds :
    (r z n s : ℕ)
    → (min (min r (min z n) - s) (z - s) ≡ min r z - s)
      ⊎ ((n - s ≤ min (min r (min z n) - s) (z - s)) × (n - s ≤ min r z - s))
slice_bounds r z n s = elim (Bool-cases (ltb n (min r z))) [
  | inl short ↦ let h = ltb→lt n (min r z) short in inr (omega arith, omega arith)
  | inr long ↦ inl (ground arith)
]

rest_length : (n at s : ℕ) → n - (at + s) ≡ (n - at) - s
rest_length n at s = omega arith

-- A slice of a chunk, seen in the content.
slice-take :
    (size_of off range_end at : ℕ) (bs : Bytes)
    → slice off range_end at (take size_of (drop at bs))
      ≡ take (min (range_end - at) size_of - (off - at)) (drop (at + (off - at)) bs)
slice-take size_of off range_end at bs =
    let z = drop at bs in
    let finish = min (range_end - at) (length (take size_of z)) in
    guarded_take (off - at) finish (drop (off - at) (take size_of z))
    ∙ ap (take (finish - (off - at))) (drop-take_le (off - at) size_of z)
    ∙ take-take_le (finish - (off - at)) (size_of - (off - at)) (drop (off - at) z)
    ∙ ap (take (min (finish - (off - at)) (size_of - (off - at)))) (drop-drop (off - at) at bs)
    ∙ take_same _ _ (drop (at + (off - at)) bs) (
        rw (length-take size_of z, length-drop at bs, length-drop (at + (off - at)) bs)
          (rw (rest_length (length bs) at (off - at))
            (slice_bounds (range_end - at) size_of (length bs - at) (off - at))))

-- What the turns up to the chunk at `at` have read, with that chunk's slice.
pub read-slice :
    (size_of off size at : ℕ) (bs : Bytes)
    → at ≤ off + size
    → off < at + size_of
    → take (at - off) (drop off bs) ++ slice off (off + size) at (take size_of (drop at bs))
      ≡ take (min size (at + size_of - off)) (drop off bs)
read-slice size_of off size at bs h k =
    ap (λ t. take (at - off) (drop off bs) ++ t)
      (slice-take size_of off (off + size) at bs
        ∙ ap (take (min (off + size - at) size_of - (off - at))) (
            drop-by (at + (off - at)) (off + (at - off)) bs (omega arith)
            ∙ sym (drop-drop (at - off) off bs)))
    ∙ take-add (at - off) (min (off + size - at) size_of - (off - at)) (drop off bs)
    ∙ take-by _ (min size (at + size_of - off)) (drop off bs) (omega arith)

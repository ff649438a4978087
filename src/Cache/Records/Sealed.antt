-- ===== src/Cache/Records/Sealed.antt =====
-- What sealStream writes, as a sequence of records: internal/mount/cache/store.go.
use pigcloud_cli.Common.{
  ℕ, zero, suc, ◌+◌, ◌≤◌, ◌<◌, String, [], ◌∷◌, ◌++◌, false, ◌≡◌, refl, sym, ◌∙◌, ap, inl, inr,
  Option, some, arith, ltb, ◌==◌, ==_iff, ltb→lt, length, length-append, length-take, length-drop,
  take, drop, Bool-cases, append_assoc,
}
use pigcloud_cli.Pins.Codec.{Bytes}
use pigcloud_cli.Cache.Records.{
  Aead, nonce_size, overhead, put_uint32, get_uint32, chunk_ad, record_of, Stream, sealed, after,
  seal_from, parsed, open_body, next_record,
}

-- What the code relies on in XChaCha20-Poly1305: a text that was sealed opens under the same nonce
-- and associated data, and is longer by the tag.
abbrev pub Opens : Aead → Type 0
Opens a = (nonce p ad : Bytes) → a.decrypt nonce (a.encrypt nonce p ad) ad ≡ some p

abbrev pub AddsTag : Aead → Type 0
AddsTag a = (nonce p ad : Bytes) → length (a.encrypt nonce p ad) ≡ length p + overhead

-- crypto/rand gives what is asked for.
abbrev pub GivesNonces : (ℕ → Option Bytes) → Type 0
GivesNonces nonces = (k : ℕ) → (n : Bytes) × (nonces k ≡ some n) × (length n ≡ nonce_size)

get-put_uint32 : (n : ℕ) (rest : Bytes) → n < 4294967296 → get_uint32 (put_uint32 n ++ rest) ≡ n
get-put_uint32 n rest h = omega arith

pub drop-append_at : (n : ℕ) (xs ys : Bytes) → length xs ≡ n → drop n (xs ++ ys) ≡ ys
drop-append_at zero [] ys h = refl
drop-append_at zero (x ∷ xs) ys h = absurd (omega arith)
drop-append_at (suc n) [] ys h = absurd (omega arith)
drop-append_at (suc n) (x ∷ xs) ys h = drop-append_at n xs ys (omega arith)

pub take-append_at : (n : ℕ) (xs ys : Bytes) → length xs ≡ n → take n (xs ++ ys) ≡ xs
take-append_at zero [] ys h = refl
take-append_at zero (x ∷ xs) ys h = absurd (omega arith)
take-append_at (suc n) [] ys h = absurd (omega arith)
take-append_at (suc n) (x ∷ xs) ys h = ap (λ t. x ∷ t) (take-append_at n xs ys (omega arith))

pub take-drop : (n : ℕ) (xs : Bytes) → take n xs ++ drop n xs ≡ xs
take-drop zero xs = refl
take-drop (suc n) [] = refl
take-drop (suc n) (x ∷ xs) = ap (λ t. x ∷ t) (take-drop n xs)

no_rest : (xs : Bytes) → length xs ≡ 0 → xs ≡ []
no_rest [] h = refl
no_rest (x ∷ xs) h = absurd (omega arith)

module _ (a : Aead) (opens : Opens a) (tags : AddsTag a) (hash : String) where
  open_body-encrypted :
      (ad nonce p rest : Bytes) (n : ℕ)
      → length (a.encrypt nonce p ad) ≡ n
      → open_body a ad n nonce (a.encrypt nonce p ad ++ rest) ≡ parsed p rest
  open_body-encrypted ad nonce p rest n e =
      let c = a.encrypt nonce p ad in
      let enough : ltb (length (c ++ rest)) n ≡ false = ground (arith, length-append c rest) in
      rw (enough, drop-append_at n c rest e, take-append_at n c rest e, opens nonce p ad) refl

  pub length-record_of :
      (offset : ℕ) (nonce p : Bytes)
      → length nonce ≡ nonce_size
      → length (record_of a hash offset nonce p) ≡ 4 + nonce_size + length p + overhead
  unfolding record_of
  length-record_of offset nonce p h = omega (
    arith,
    length-append nonce (a.encrypt nonce p (chunk_ad offset hash)),
    tags nonce p (chunk_ad offset hash),
  )

  next_record-framed :
      (offset n : ℕ) (nonce c rest : Bytes)
      → length nonce ≡ nonce_size
      → n < 4294967296
      → next_record a hash offset (put_uint32 n ++ (nonce ++ (c ++ rest)))
        ≡ open_body a (chunk_ad offset hash) n nonce (c ++ rest)
  unfolding next_record
  next_record-framed offset n nonce c rest h small =
      let whole = nonce ++ (c ++ rest) in
      let enough : ltb (suc (suc (suc (suc (length whole))))) 28 ≡ false =
        ground (arith, length-append nonce (c ++ rest)) in
      let nonempty : (suc (suc (suc (suc (length whole)))) == 0) ≡ false = ground arith in
      rw
        (
          nonempty,
          enough,
          get-put_uint32 n whole small,
          take-append_at 24 nonce (c ++ rest) h,
          drop-append_at 24 nonce (c ++ rest) h,
        )
        refl

  -- A record that was written is read back.
  pub next_record-record_of :
      (offset : ℕ) (nonce p rest : Bytes)
      → length nonce ≡ nonce_size
      → length p + overhead < 4294967296
      → next_record a hash offset (record_of a hash offset nonce p ++ rest) ≡ parsed p rest
  unfolding record_of
  next_record-record_of offset nonce p rest h small =
      let ad = chunk_ad offset hash in
      let c = a.encrypt nonce p ad in
      let whole =
        ap (λ t. next_record a hash offset (put_uint32 (length c) ++ t))
          (append_assoc nonce c rest) in
      whole
      ∙ next_record-framed offset (length c) nonce c rest h (omega (arith, tags nonce p ad))
      ∙ open_body-encrypted ad nonce p rest (length c) refl

-- The records of the content `rest`, that begins at the offset: chunks of the size, and the last
-- perhaps a shorter one.
pub data Written (a : Aead) (hash : String) (size_of : ℕ) : ℕ → Bytes → Bytes → Type 0 where
  ended : (offset : ℕ) → Written a hash size_of offset [] []
  chunk :
      (offset : ℕ) (nonce p rest later content file : Bytes)
      → length nonce ≡ nonce_size
      → 0 < length p
      → length p ≤ size_of
      → ((length p < size_of) → rest ≡ [])
      → content ≡ p ++ rest
      → file ≡ record_of a hash offset nonce p ++ later
      → Written a hash size_of (offset + length p) rest later
      → Written a hash size_of offset content file

module _ (a : Aead) (hash : String) (size_of : ℕ) (nonces : ℕ → Option Bytes) where
  drop-short : (p : Bytes) → length (take size_of p) < size_of → drop size_of p ≡ []
  drop-short p h =
      no_rest (drop size_of p) (omega (arith, length-drop size_of p, length-take size_of p))

  abbrev Seals : Stream → ℕ → Bytes → Type 0
  Seals stream total rest =
      (out : Bytes) × (stream ≡ sealed out) × Written a hash size_of total rest out

  Seals-nothing : (total : ℕ) (rest : Bytes) → rest ≡ [] → Seals (sealed []) total rest
  Seals-nothing total rest e = ([], refl, rw e (ended total))

  module _ (total : ℕ) (nonce rest : Bytes) (sized : length nonce ≡ nonce_size) where
    abbrev first : Bytes
    first = take size_of rest

    Seals-last :
        0 < length first
        → length first < size_of
        → Seals (after (record_of a hash total nonce first) (sealed [])) total rest
    Seals-last some_bytes short = (
      record_of a hash total nonce first ++ [],
      refl,
      chunk total nonce first [] [] rest (record_of a hash total nonce first ++ []) sized some_bytes
          (omega arith) (λ _. refl)
          (sym (take-drop size_of rest) ∙ ap (λ t. first ++ t) (drop-short rest short)) refl
          (ended (total + length first)),
    )

    Seals-more :
        (later : Stream)
        → 0 < length first
        → length first ≡ size_of
        → Seals later (total + length first) (drop size_of rest)
        → Seals (after (record_of a hash total nonce first) later) total rest
    Seals-more later some_bytes whole (out, e, w) = (
      record_of a hash total nonce first ++ out,
      ap (after (record_of a hash total nonce first)) e,
      chunk total nonce first (drop size_of rest) out rest
          (record_of a hash total nonce first ++ out) sized some_bytes (omega arith)
          (λ short. absurd (omega arith)) (sym (take-drop size_of rest)) refl w,
    )

  -- The loop writes the records of the content.
  pub seal_from-Written :
      GivesNonces nonces
      → (fuel k total : ℕ) (rest : Bytes) → 0 < size_of
      → length rest < fuel
      → Seals (seal_from a size_of hash nonces fuel k total rest) total rest
  unfolding seal_from
  seal_from-Written gives zero k total rest positive h = absurd (omega arith)
  seal_from-Written gives (suc fuel) k total rest positive h =
      let p = take size_of rest in
      let sized = length-take size_of rest in
      elim (Bool-cases (length p == 0)) [
        | inl over ↦
            rw (over, seal_from)
              (Seals-nothing total rest
                (no_rest rest (omega (arith, (==_iff (length p) 0).0 over, sized))))
        | inr some_bytes ↦
            let (nonce, e, whole) = gives k in
            rw (some_bytes, seal_from, e)
              (elim (Bool-cases (ltb (length p) size_of)) [
                | inl short ↦ rw short (
                    Seals-last total nonce rest whole (ground arith)
                      (ltb→lt (length p) size_of short))
                | inr full ↦ rw full (
                    Seals-more total nonce rest whole
                      (seal_from a size_of hash nonces fuel (suc k) (total + length p)
                        (drop size_of rest))
                      (ground arith) (ground arith)
                      (seal_from-Written gives fuel (suc k) (total + length p) (drop size_of rest)
                        positive (ground (arith, length-drop size_of rest))))
              ])
      ]

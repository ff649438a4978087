-- ===== src/Cache/Records/Restored.antt =====
-- What Get and ReadAt give of a blob that was sealed: internal/mount/cache/store.go.
use pigcloud_cli.Common.{
  ℕ, zero, suc, ◌+◌, ◌*◌, ◌≤◌, ◌<◌, String, [], ◌∷◌, ◌++◌, true, ◌≡◌, refl, sym, ◌∙◌, ap, inl, inr,
  Option, arith, ltb, if◌then◌else◌, ltb→lt, length, length-append, take, drop, Bool-cases,
  append_assoc, append-nil,
}
use pigcloud_cli.Pins.Codec.{Bytes}
use pigcloud_cli.Cache.Chunks.{plain, past_end}
use pigcloud_cli.Cache.Chunks.Slices.{take-full, drop-none}
use pigcloud_cli.Cache.Chunks.Reads.{Honest}
use pigcloud_cli.Cache.Records.{
  Aead, nonce_size, overhead, full_record_size, record_of, sealed, seal_stream, parsed, answer_of,
  next_record, got, get_from, read_chunk_at,
}
use pigcloud_cli.Cache.Records.Sealed.{
  Opens, AddsTag, GivesNonces, Written, ended, chunk, next_record-record_of, length-record_of,
  seal_from-Written, take-append_at,
}

drop-all : (n : ℕ) (xs : Bytes) → length xs ≤ n → drop n xs ≡ []
drop-all zero [] h = refl
drop-all (suc n) [] h = refl
drop-all zero (x ∷ xs) h = absurd (omega arith)
drop-all (suc n) (x ∷ xs) h = drop-all n xs (omega arith)

drop-past : (n k : ℕ) (xs ys : Bytes) → n ≡ length xs + k → drop n (xs ++ ys) ≡ drop k ys
drop-past n k [] ys h = let e : n ≡ k = omega arith in rw e refl
drop-past zero k (x ∷ xs) ys h = absurd (omega arith)
drop-past (suc n) k (x ∷ xs) ys h = drop-past n k xs ys (omega arith)

take-first :
    (n : ℕ) (p rest : Bytes) → length p ≤ n → ((length p < n) → rest ≡ []) → take n (p ++ rest) ≡ p
take-first n p rest fits last = elim (Bool-cases (ltb (length p) n)) [
  | inl short ↦ rw (last (ltb→lt (length p) n short), append-nil p) (take-full n p fits)
  | inr full ↦ take-append_at n p rest (ground arith)
]

module _ (a : Aead) (opens : Opens a) (tags : AddsTag a) (hash : String) (size_of : ℕ)
    (small : size_of + overhead < 4294967296) where
  get_from-Written :
      (fuel offset : ℕ) (result content file : Bytes)
      → Written a hash size_of offset content file
      → offset ≡ length result
      → length file < fuel
      → get_from a hash fuel result file ≡ got (result ++ content)
  unfolding get_from next_record
  get_from-Written zero offset result content file w e enough = absurd (omega arith)
  get_from-Written (suc fuel) offset result _ _ (ended _) e enough =
      ap got (sym (append-nil result))
  get_from-Written (suc fuel) offset result content file
        (chunk _ nonce p rest later _ _ sized some_bytes fits last is_content is_file w) e enough =
      let step : next_record a hash (length result) file ≡ parsed p later =
        rw (is_file, ← e)
          (next_record-record_of a opens tags hash offset nonce p later sized (omega arith)) in
      let shorter : length later < fuel = omega (
        arith,
        ap length is_file,
        length-append (record_of a hash offset nonce p) later,
        length-record_of a opens tags hash offset nonce p sized,
      ) in
      rw (step, get_from, is_content)
        (get_from-Written fuel (offset + length p) (result ++ p) rest later w
            (omega (arith, length-append result p)) shorter
          ∙ ap got (append_assoc result p rest))

  Written-nothing :
      (offset : ℕ) (content file : Bytes)
      → Written a hash size_of offset content file
      → content ≡ []
      → file ≡ []
  Written-nothing offset _ _ (ended _) e = refl
  Written-nothing offset content file
        (chunk _ nonce p rest later _ _ sized some_bytes fits last is_content is_file w) e =
      absurd (omega (arith, ap length is_content, ap length e, length-append p rest))

  abbrev Finds : ℕ → ℕ → ℕ → Bytes → Bytes → Type 0
  Finds offset n m content file =
      answer_of (next_record a hash (offset + n) (drop m file))
      ≡ (if ltb n (length content) then plain (take size_of (drop n content)) else past_end)

  Finds-nothing : (offset n m : ℕ) → Finds offset n m [] []
  unfolding next_record
  Finds-nothing offset n m = rw (drop-none m) (ground arith)

  Finds-past :
      (offset n m : ℕ) (content file : Bytes)
      → length content ≤ n
      → length file ≤ m
      → Finds offset n m content file
  unfolding next_record
  Finds-past offset n m content file h k = rw (drop-all m file k) (ground arith)

  Finds-first :
      (offset : ℕ) (nonce p rest later : Bytes)
      → length nonce ≡ nonce_size
      → 0 < length p
      → length p ≤ size_of
      → ((length p < size_of) → rest ≡ [])
      → Finds offset 0 0 (p ++ rest) (record_of a hash offset nonce p ++ later)
  Finds-first offset nonce p rest later sized some_bytes fits last =
      let inside : ltb 0 (length (p ++ rest)) ≡ true = ground (arith, length-append p rest) in
      let same_offset : offset + 0 ≡ offset = omega arith in
      rw
        (
          inside,
          same_offset,
          next_record-record_of a opens tags hash offset nonce p later sized (omega arith),
          take-first size_of p rest fits last,
        )
        refl

  Finds-later :
      (i offset n m : ℕ) (content file : Bytes)
      → Written a hash size_of offset content file
      → n ≡ i * size_of
      → m ≡ i * full_record_size size_of
      → Finds offset n m content file
  Finds-later i offset n m _ _ (ended _) e k = Finds-nothing offset n m
  Finds-later zero offset n m content file
        (chunk _ nonce p rest later _ _ sized some_bytes fits last is_content is_file w) e k =
      let at_zero : n ≡ 0 = omega arith in
      let from_zero : m ≡ 0 = omega arith in
      rw (at_zero, from_zero, is_content, is_file)
        (Finds-first offset nonce p rest later sized some_bytes fits last)
  Finds-later (suc i) offset n m content file
        (chunk _ nonce p rest later _ _ sized some_bytes fits last is_content is_file w) e k =
      let recorded = length-record_of a opens tags hash offset nonce p sized in
      let long = length-append (record_of a hash offset nonce p) later in
      let all = length-append p rest in
      elim (Bool-cases (ltb (length p) size_of)) [
        | inl short ↦
            let lt = ltb→lt (length p) size_of short in
            let no_rest = last lt in
            let no_later = Written-nothing (offset + length p) rest later w no_rest in
            Finds-past offset n m content file
              (omega (arith, lt, all, ap length is_content, ap length no_rest, e))
              (omega (arith, lt, long, recorded, ap length is_file, ap length no_later, k))
        | inr full ↦
            let whole : length p ≡ size_of = ground arith in
            let there =
              Finds-later i (offset + length p) (i * size_of) (i * full_record_size size_of) rest
                later w refl refl in
            let same_offset : offset + length p + i * size_of ≡ offset + n = omega arith in
            let file_past : drop m file ≡ drop (i * full_record_size size_of) later = rw is_file (
              drop-past m (i * full_record_size size_of) (record_of a hash offset nonce p) later
                (omega (arith, recorded))) in
            let content_past : drop n content ≡ drop (i * size_of) rest =
              rw is_content (drop-past n (i * size_of) p rest (omega arith)) in
            let inside : ltb n (length content) ≡ ltb (i * size_of) (length rest) =
              ground (arith, all, ap length is_content) in
            rw (file_past, content_past, inside, ← same_offset) there
      ]

-- A read of a blob's file that was sealed from a content gives the content's bytes.
abbrev pub IsSealed : Aead → ℕ → String → Bytes → Bytes → Type 0
IsSealed a size_of hash content file =
    (get_from a hash (suc (length file)) [] file ≡ got content)
    × Honest size_of content (read_chunk_at a size_of hash file)

pub seal_stream-IsSealed :
    (a : Aead) (size_of : ℕ) (hash : String) (nonces : ℕ → Option Bytes) (content : Bytes)
    → Opens a
    → AddsTag a
    → GivesNonces nonces
    → 0 < size_of
    → size_of + overhead < 4294967296
    → (file : Bytes) × (seal_stream a size_of hash nonces content ≡ sealed file)
      × IsSealed a size_of hash content file
unfolding seal_stream read_chunk_at
seal_stream-IsSealed a size_of hash nonces content opens tags gives positive small =
    let (file, e, w) =
      seal_from-Written a hash size_of nonces gives (suc (length content)) 0 0 content positive
        (omega arith) in
    (
      file,
      e,
      (
        get_from-Written a opens tags hash size_of small (suc (length file)) 0 [] content file w
            refl (omega arith),
        λ i.
            let same_offset : 0 + i * size_of ≡ i * size_of = omega arith in
            rw (same_offset) at (
              Finds-later a opens tags hash size_of small i 0 (i * size_of)
                (i * full_record_size size_of) content file w refl refl),
      ),
    )

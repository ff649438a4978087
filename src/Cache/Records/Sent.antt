-- ===== src/Cache/Records/Sent.antt =====
-- WriteTo hands on what Get gives: internal/mount/cache/store.go.
use pigcloud_cli.Common.{
  ℕ, zero, suc, ◌+◌, ◌-◌, ◌≤◌, ◌<◌, String, [], ◌∷◌, ◌++◌, true, false, ◌≡◌, refl, sym, ◌∙◌, ap,
  ◌⊎◌, inl, inr, Option, none, some, arith, ltb, leb, if◌then◌else◌, length, length-append, take,
  lookup, Bool-cases, append_assoc, append-nil,
}
use pigcloud_cli.Pins.Codec.{Bytes}
use pigcloud_cli.Cache.Chunks.Slices.{take-full}
use pigcloud_cli.Cache.Records.{
  Aead, Parsed, parsed, at_end, bad, next_record, got, unreadable, get_from, Ended, finished,
  broken, write_from,
}
use pigcloud_cli.Cache.Records.Vault.{Contents, get, get_file, write_file, write_to}

take-within :
    (n : ℕ) (xs ys : Bytes) → length xs ≤ n → take n (xs ++ ys) ≡ xs ++ take (n - length xs) ys
take-within n [] ys h = let e : n - 0 ≡ n = omega arith in rw e refl
take-within zero (x ∷ xs) ys h = absurd (omega arith)
take-within (suc n) (x ∷ xs) ys h =
    let e : suc n - suc (length xs) ≡ n - length xs = omega arith in
    rw e (ap (λ t. x ∷ t) (take-within n xs ys (omega arith)))

take-short : (n : ℕ) (xs ys : Bytes) → n ≤ length xs → take n (xs ++ ys) ≡ take n xs
take-short zero xs ys h = refl
take-short (suc n) [] ys h = absurd (omega arith)
take-short (suc n) (x ∷ xs) ys h = ap (λ t. x ∷ t) (take-short n xs ys (omega arith))

-- How the writer's room ends it.
abbrev pub ends : ℕ → ℕ → Ended
ends room n = if leb n room then finished else broken

Parsed-cases : (x : Parsed) → (x ≡ at_end) ⊎ ((x ≡ bad) ⊎ ((p rest : Bytes) × (x ≡ parsed p rest)))
Parsed-cases at_end = inl refl
Parsed-cases bad = inr (inl refl)
Parsed-cases (parsed p rest) = inr (inr (p, rest, refl))

got-injective : {c d : Bytes} → got c ≡ got d → c ≡ d
got-injective h = cc

module _ (a : Aead) (hash : String) where
  module _ (fuel : ℕ) (out file : Bytes) where
    -- One turn of Get, for each thing that the file can begin with.
    get_end :
        next_record a hash (length out) file ≡ at_end
        → get_from a hash (suc fuel) out file ≡ got out
    unfolding get_from
    get_end h = rw (h, get_from) refl

    get_bad :
        next_record a hash (length out) file ≡ bad
        → get_from a hash (suc fuel) out file ≡ unreadable
    unfolding get_from
    get_bad h = rw (h, get_from) refl

    get_more :
        (p rest : Bytes)
        → next_record a hash (length out) file ≡ parsed p rest
        → get_from a hash (suc fuel) out file ≡ get_from a hash fuel (out ++ p) rest
    unfolding get_from
    get_more p rest h = rw (h, get_from) refl

  -- What Get has decrypted stands at the front of what it gives.
  get_from-extends :
      (fuel : ℕ) (out file content : Bytes)
      → get_from a hash fuel out file ≡ got content
      → (tail : Bytes) × (content ≡ out ++ tail)
  unfolding get_from
  get_from-extends zero out file content e = absurd cc
  get_from-extends (suc fuel) out file content e =
      elim (Parsed-cases (next_record a hash (length out) file)) [
        | inl over ↦ ([], got-injective (sym e ∙ get_end fuel out file over) ∙ sym (append-nil out))
        | inr (inl wrong) ↦ absurd (cc (e, get_bad fuel out file wrong))
        | inr (inr (p, rest, more)) ↦
            let (tail, is_content) =
              get_from-extends fuel (out ++ p) rest content
                (sym (get_more fuel out file p rest more) ∙ e) in
            (p ++ tail, is_content ∙ append_assoc out p tail)
      ]

  module _ (room : ℕ) where
    -- The chunk that is more than the writer has room for.
    sends_part :
        (out p tail content : Bytes)
        → length out ≤ room
        → room < length out + length p
        → content ≡ (out ++ p) ++ tail
        → ◌≡◌ {A = Bytes × Ended}
            (out ++ take (room - length out) p, broken)
            (take room content, ends room (length content))
    sends_part out p tail content within over is_content =
        let long : leb (length content) room ≡ false =
          ground
            (arith, ap length is_content, length-append (out ++ p) tail, length-append out p) in
        let front : take room content ≡ out ++ take (room - length out) p =
          ap (take room) is_content
          ∙ take-short room (out ++ p) tail (omega (arith, length-append out p))
          ∙ take-within room out p within in
        rw (front, long) refl

    write_from-get :
        (fuel : ℕ) (out file content : Bytes)
        → length out ≤ room
        → get_from a hash fuel out file ≡ got content
        → write_from a hash room fuel out file ≡ (take room content, ends room (length content))
    unfolding write_from get_from
    write_from-get zero out file content within e = absurd cc
    write_from-get (suc fuel) out file content within e =
        elim (Parsed-cases (next_record a hash (length out) file)) [
          | inl over ↦
              let whole : content ≡ out = got-injective (sym e ∙ get_end fuel out file over) in
              let fits : leb (length out) room ≡ true = ground arith in
              rw (over, write_from, whole, fits, take-full room out within) refl
          | inr (inl wrong) ↦ absurd (cc (e, get_bad fuel out file wrong))
          | inr (inr (p, rest, more)) ↦
              let goes_on = sym (get_more fuel out file p rest more) ∙ e in
              rw (more, write_from)
                (elim (Bool-cases (ltb room (length out + length p))) [
                  | inl over ↦
                      let (tail, is_content) =
                        get_from-extends fuel (out ++ p) rest content goes_on in
                      rw over (sends_part out p tail content within (ground arith) is_content)
                  | inr fits ↦ rw fits (
                      write_from-get fuel (out ++ p) rest content
                        (ground (arith, length-append out p)) goes_on)
                ])
        ]

write_file-get :
    (a : Aead) (hash : String) (room : ℕ) (content : Bytes) (o : Option Bytes)
    → get_file a hash o ≡ got content
    → write_file a hash room o ≡ (take room content, ends room (length content))
write_file-get a hash room content none e = absurd cc
write_file-get a hash room content (some file) e =
    write_from-get a hash room (suc (length file)) [] file content (omega arith) e

-- WriteTo against Get: where Get gives a content, of a sealed file or any other, WriteTo hands just
-- this content to its writer, and succeeds, if the writer has room for it, and else hands over as much
-- of it as there is room for and fails.
pub write_to-get :
    (a : Aead) (s : Contents) (hash : String) (room : ℕ) (content : Bytes)
    → get a s hash ≡ got content
    → write_to a s hash room ≡ (take room content, ends room (length content))
unfolding get write_to
write_to-get a s hash room content e = write_file-get a hash room content (lookup hash s.files) e

-- ===== src/Pins/Own/History.antt =====
-- What remembering a key and seeding from the signed history leave behind.
use pigcloud_cli.Common.{
  ◌-◌, ◌≤◌, ◌<◌, String, List, [], ◌∷◌, ◌++◌, true, false, ◌≡◌, refl, sym, subst, ◌∙◌, ap, Option,
  none, some, arith, inl, inr, ltb, same, same_refl, is_empty, if◌then◌else◌, length, length-append,
  length-drop, any-append, any-drop_last, insert, lookup-insert_self, Bool-cases, Option-cases,
  append_assoc, append-nil,
}
use pigcloud_cli.Pins.{Account}
use pigcloud_cli.Pins.Codec.{Bytes, Codec}
use pigcloud_cli.Pins.Own.{
  StoreFile, decoded, own_signing_pks_max, load_file, key_set, contains, extend, remember, trusted,
  HistoryBlob, history_domain, decode_keys, signed_by_own, verify_history,
}
use pigcloud_cli.Pins.Peer.Bundle.{Verifier}

length-extend : (set : List String) (k : String) → length (extend set k) ≤ own_signing_pks_max
unfolding extend
length-extend set k =
    ground (arith, length-drop (length (set ++ k ∷ []) - own_signing_pks_max) (set ++ k ∷ []))

contains-extend : (set : List String) (k : String) → contains (extend set k) k ≡ true
unfolding extend
contains-extend set k = elim (Bool-cases (ltb own_signing_pks_max (length (set ++ k ∷ [])))) [
  | inl long ↦ rw long (
      any-drop_last (λ j. same j k) (length (set ++ k ∷ []) - own_signing_pks_max) set k
        (omega (arith, length-append set (k ∷ []))) (same_refl k))
  | inr short ↦ rw (short, any-append (λ j. same j k) set (k ∷ [])) (ground (arith, same_refl k))
]

contains-extend_old :
    (set : List String) (k j : String)
    → length set < own_signing_pks_max
    → contains set j ≡ true
    → contains (extend set k) j ≡ true
unfolding extend
contains-extend_old set k j h e =
    ground (arith, length-append set (k ∷ []), any-append (λ i. same i j) set (k ∷ []))

-- remember, seen through the account's set
key_set-remember :
    (a : Account) (f : StoreFile) (k : String)
    → a.has_path ≡ true
    → is_empty a.owner ≡ false
    → key_set a (remember a true f k)
      ≡ (if contains (key_set a f) k then key_set a f else extend (key_set a f) k)
key_set-remember a f k p o = elim (Bool-cases (contains (key_set a f) k)) [
  | inl old ↦ rw (unfolded, old)
  | inr new ↦ rw (unfolded, new) (unfold key_set load_file in rw (o, p) (rw lookup-insert_self))
]
  where
    unfolded : remember a true f k ≡ (
        if contains (key_set a f) k
        then f
        else decoded 2 (some (insert a.owner (extend (key_set a f) k) (load_file a f))))
    unfolded = unfold remember key_set in rw (p, o)

-- A key that the account remembers, in a store that is written, is trusted from then on; the set
-- holds at most sixteen keys if it did before; and where it was not full, every key that was
-- trusted still is.
pub remember_lem :
    (a : Account) (f : StoreFile) (k : String)
    → a.has_path ≡ true
    → is_empty a.owner ≡ false
    → let g = remember a true f k in
      (trusted a g k ≡ true)
      × (length (key_set a f) ≤ own_signing_pks_max → length (key_set a g) ≤ own_signing_pks_max)
      × ((j : String)
          → length (key_set a f) < own_signing_pks_max
          → trusted a f j ≡ true
          → trusted a g j ≡ true)
unfolding trusted
remember_lem a f k p o = rw (key_set-remember a f k p o) (
  ground (arith, contains-extend (key_set a f) k),
  λ bound. ground (arith, length-extend (key_set a f) k),
  λ j room e. ground (arith, contains-extend_old (key_set a f) k j room e),
)

abbrev pub join : List Bytes → Bytes
join [] = []
join (k ∷ ks) = k ++ join ks

decode_keys-join :
    (c : Codec) (eds : List String) (input : Bytes) (keys : List Bytes) (t : Bytes × List Bytes)
    → decode_keys c eds input keys ≡ some t
    → (ks : List Bytes) × (t.0 ≡ input ++ join ks) × (t.1 ≡ keys ++ ks)
unfolding decode_keys
decode_keys-join c [] input keys t h =
    ([], ground (arith, append-nil input), ground (arith, append-nil keys))
decode_keys-join c (ed ∷ eds) input keys t h = elim (Option-cases (c.decode ed)) [
  | inl bad ↦ cc (rw (bad, decode_keys) at h)
  | inr (raw, good) ↦
      let (ks, input', keys') =
        decode_keys-join c eds (input ++ raw) (keys ++ raw ∷ []) t (rw (good, decode_keys) at h) in
      (raw ∷ ks, input' ∙ append_assoc input raw (join ks), keys' ∙ append_assoc keys (raw ∷ []) ks)
]

signed_by_own-true :
    (c : Codec) (v : Verifier) (own_ed own_ml input : Bytes) (so sm : Option Bytes)
    → signed_by_own c v own_ed own_ml input so sm ≡ true
    → (sig_ed : Bytes) × (sig_ml : Bytes) × (so ≡ some sig_ed)
      × (sm ≡ some sig_ml)
      × (length own_ed ≡ 32)
      × (length own_ml ≡ c.mldsa_pk_size)
      × (v.verify_ed own_ed input sig_ed ≡ true)
      × (v.verify_ml own_ml input sig_ml ≡ true)
unfolding signed_by_own
signed_by_own-true c v own_ed own_ml input none sm h = cc
signed_by_own-true c v own_ed own_ml input (some e) none h = cc
signed_by_own-true c v own_ed own_ml input (some e) (some m) h =
    (e, m, refl, refl, ground arith, ground arith, ground arith, ground arith)

verify_history-decoded :
    (c : Codec) (v : Verifier) (blob : HistoryBlob) (own_ed own_ml : Bytes) (keys : List Bytes)
    → verify_history c v (some blob) own_ed own_ml ≡ some keys
    → (input : Bytes) × (decode_keys c blob.eds history_domain [] ≡ some (input, keys))
      × (signed_by_own c v own_ed own_ml input (c.decode blob.sig_ed) (c.decode blob.sig_ml) ≡ true)
unfolding verify_history
verify_history-decoded c v blob own_ed own_ml keys h =
    elim (Option-cases (decode_keys c blob.eds history_domain [])) [
      | inl bad ↦ absurd (ground (arith, bad))
      | inr ((input, ks), good) ↦ (input, ground (arith, good), ground (arith, good))
    ]

-- The keys of a history are believed only if both of the account's own keys, each of its size,
-- verify a signature over the domain followed by exactly those keys.
pub verify_history-signed :
    (c : Codec) (v : Verifier) (blob : HistoryBlob) (own_ed own_ml : Bytes) (keys : List Bytes)
    → verify_history c v (some blob) own_ed own_ml ≡ some keys
    → (sig_ed : Bytes) × (sig_ml : Bytes) × (c.decode blob.sig_ed ≡ some sig_ed)
      × (c.decode blob.sig_ml ≡ some sig_ml)
      × (length own_ed ≡ 32)
      × (length own_ml ≡ c.mldsa_pk_size)
      × (v.verify_ed own_ed (history_domain ++ join keys) sig_ed ≡ true)
      × (v.verify_ml own_ml (history_domain ++ join keys) sig_ml ≡ true)
verify_history-signed c v blob own_ed own_ml keys h =
    let (input, dec, sig) = verify_history-decoded c v blob own_ed own_ml keys h in
    let (ks, input', keys') = decode_keys-join c blob.eds history_domain [] (input, keys) dec in
    signed_by_own-true c v own_ed own_ml (history_domain ++ join keys) _ _ (
      subst
        (λ t.
          signed_by_own c v own_ed own_ml t (c.decode blob.sig_ed) (c.decode blob.sig_ml) ≡ true)
        (input' ∙ ap (λ l. history_domain ++ join l) (sym keys')) sig)

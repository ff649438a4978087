-- ===== src/Pins/Peer/Trust.antt =====
-- When a peer's pin is taken, kept and moved.
use pigcloud_cli.Common.{
  String, List, [], ◌∷◌, Bool, true, false, ◌≡◌, refl, sym, subst, ◌⊎◌, ◌∙◌, ap, Option, none, some,
  arith, same, same_iff, is_empty, insert, lookup, lookup-insert_self, get_or, All,
}
use pigcloud_cli.Pins.{Account}
use pigcloud_cli.Pins.Codec.{Codec}
use pigcloud_cli.Pins.Peer.{
  PeerPin, Owners, StoreFile, decoded, Result, ok, err, pin_version, load_file, seal_record,
  write_record, fingerprint, attributable, offered_pin, decide, pin_key, after_decision,
}
use pigcloud_cli.Pins.Peer.Bundle.{PeerKeyBundle, Verifier, usable_seal_key}

abbrev written_file : Account → Owners → String → PeerPin → StoreFile
written_file a owners peer r =
    decoded pin_version
      (some (insert a.owner (insert peer r (get_or [] (lookup a.owner owners))) owners))

write_record-ok :
    (a : Account) (valid written : Bool) (f : StoreFile) (peer : String) (r : PeerPin)
    → (write_record a valid written f peer r).1 ≡ ok tt
    → (owners : Owners) × (load_file a f ≡ ok owners)
      × (a.has_path ≡ true)
      × (is_empty a.owner ≡ false)
      × (valid ≡ true)
      × ((write_record a valid written f peer r).0 ≡ written_file a owners peer r)
unfolding write_record
write_record-ok a valid written f peer r h = ground arith

seal_record-written :
    (a : Account) (owners : Owners) (peer : String) (r : PeerPin)
    → a.has_path ≡ true
    → is_empty a.owner ≡ false
    → is_empty r.fp ≡ false
    → seal_record a true (written_file a owners peer r) peer ≡ ok (some r)
unfolding seal_record load_file
seal_record-written a owners peer r p o ne =
    rw (p, o) (rw lookup-insert_self (rw lookup-insert_self (rw ne)))

-- A write that succeeds can be read back.
pub seal_record-write_record :
    (a : Account) (valid written : Bool) (f : StoreFile) (peer : String) (r : PeerPin)
    → is_empty r.fp ≡ false
    → (write_record a valid written f peer r).1 ≡ ok tt
    → seal_record a valid (write_record a valid written f peer r).0 peer ≡ ok (some r)
seal_record-write_record a valid written f peer r ne h =
    let (owners, _, p, o, v, e) = write_record-ok a valid written f peer r h in
    rw (e, v) (seal_record-written a owners peer r p o ne)

-- same key, or the bundle is signed by the keys that the record was taken under.
abbrev pub Warranted : Codec → Verifier → Option PeerPin → PeerKeyBundle → Type 0
Warranted c v none b = Unit {0}
Warranted c v (some r) b = (r.fp ≡ fingerprint c v b) ⊎ (attributable c v r b ≡ true)

module _ (c : Codec) (v : Verifier) (a : Account) (valid written : Bool) where
  decide-Warranted :
      (r : Option PeerPin) (b : PeerKeyBundle) {change : Bool}
      → decide c v r b ≡ ok change
      → Warranted c v r b
  unfolding decide
  decide-Warranted none b h = tt
  decide-Warranted (some r) b h = ground (arith, same_iff r.fp (fingerprint c v b))

  decide-keeps :
      (r : Option PeerPin) (b : PeerKeyBundle)
      → decide c v r b ≡ ok false
      → (q : PeerPin) × (r ≡ some q) × (q.fp ≡ fingerprint c v b)
  unfolding decide
  decide-keeps none b h = cc
  decide-keeps (some r) b h = (r, refl, ground (arith, same_iff r.fp (fingerprint c v b)))

  module _ (f : StoreFile) (peer : String) (b : PeerKeyBundle) where
    -- the record of the peer in `g` holds the bundle's fingerprint
    abbrev pub Pinned : StoreFile → Type 0
    Pinned g =
        (r : PeerPin) × (seal_record a valid g peer ≡ ok (some r)) × (r.fp ≡ fingerprint c v b)

    after_decision-Pinned :
        (r : Option PeerPin) (d : Result Bool)
        → seal_record a valid f peer ≡ ok r
        → is_empty (fingerprint c v b) ≡ false
        → decide c v r b ≡ d
        → (after_decision c v a valid written f peer b d).1 ≡ ok tt
        → Pinned (after_decision c v a valid written f peer b d).0
    after_decision-Pinned r (err e) stored ne dec h = cc
    after_decision-Pinned r (ok false) stored ne dec h =
        let (q, is_q, fp) = decide-keeps r b dec in (q, stored ∙ ap ok is_q, fp)
    after_decision-Pinned r (ok true) stored ne dec h = (
      offered_pin c v b,
      seal_record-write_record a valid written f peer (offered_pin c v b) (unfold offered_pin in ne)
          h,
      unfold offered_pin in refl,
    )

    pin_key-decided :
        (pin_key c v a valid written f peer (some b)).1 ≡ ok tt
        → (usable_seal_key b ≡ true)
          × ((r : Option PeerPin) × (d : Bool) × (seal_record a valid f peer ≡ ok r)
              × (decide c v r b ≡ ok d)
              × (pin_key c v a valid written f peer (some b)
                  ≡ after_decision c v a valid written f peer b (ok d)))
    unfolding pin_key
    pin_key-decided h = ground arith

    -- PinPeerSealKey succeeds only for a usable bundle, and only where the stored record warrants
    -- it: there is none, or it is of the same key, or the bundle is signed by the keys that the
    -- record was taken under. Afterwards the record holds the fingerprint of the bundle, if that
    -- is no empty text.
    pub pin_key-Warranted :
        is_empty (fingerprint c v b) ≡ false
        → (pin_key c v a valid written f peer (some b)).1 ≡ ok tt
        → (usable_seal_key b ≡ true)
          × ((before : Option PeerPin) × (seal_record a valid f peer ≡ ok before)
              × Warranted c v before b)
          × Pinned (pin_key c v a valid written f peer (some b)).0
    pin_key-Warranted ne h =
        let (usable, (r, d, stored, dec, e)) = pin_key-decided h in
        (
          usable,
          (r, stored, decide-Warranted r b dec),
          subst (λ t. Pinned t.0) (sym e)
              (after_decision-Pinned r (ok d) stored ne dec (subst (λ t. t.1 ≡ ok tt) e h)),
        )

    -- The record of an account stays as it is under a bundle that it does not warrant, and the
    -- bundle is refused as a changed key.
    unwarranted_refused :
        (r : PeerPin)
        → seal_record a valid f peer ≡ ok (some r)
        → same r.fp (fingerprint c v b) ≡ false
        → attributable c v r b ≡ false
        → (pin_key c v a valid written f peer (some b)).0 ≡ f
    unfolding pin_key decide
    unwarranted_refused r stored ne na = ground arith

  -- the store after a series of bundles that the server served for the peer
  unfoldable pub serve : StoreFile → String → List PeerKeyBundle → StoreFile
  serve f peer [] = f
  serve f peer (b ∷ bs) = serve (pin_key c v a valid written f peer (some b)).0 peer bs

  -- However often the server serves other keys for a peer, none of them signed by the keys that
  -- the record was taken under, the peer's record and the whole store stay as they were.
  pub serve-unsigned :
      (f : StoreFile) (peer : String) (r : PeerPin) (bs : List PeerKeyBundle)
      → seal_record a valid f peer ≡ ok (some r)
      → All (λ b. (same r.fp (fingerprint c v b) ≡ false) × (attributable c v r b ≡ false)) bs
      → serve f peer bs ≡ f
  unfolding serve
  serve-unsigned f peer r [] stored h = refl
  serve-unsigned f peer r (b ∷ bs) stored ((ne, na), h) =
      rw (unwarranted_refused f peer b r stored ne na) (serve-unsigned f peer r bs stored h)

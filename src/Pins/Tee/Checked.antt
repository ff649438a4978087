-- ===== src/Pins/Tee/Checked.antt =====
-- What a check of the scanner's keys lets through: internal/e2ee/tee_signing_pin.go.
use pigcloud_cli.Common.{
  ℕ, ◌≤◌, String, List, [], ◌∷◌, true, false, ◌&&◌, ◌≡◌, ◌≢◌, refl, ◌⊎◌, inl, inr, ◌∙◌, Option,
  none, some, arith, same_iff, is_empty, ltb, Bool-cases, Option-cases,
}
use pigcloud_cli.Pins.{Account}
use pigcloud_cli.Pins.Tee.{
  Error, Retired, Pin, StoreFile, Result, ok, err, signing_record, same_pair, pinned, accepts,
}
use pigcloud_cli.Pins.Tee.Attestation.{Answer, answerable, sgx}
use pigcloud_cli.Pins.Tee.Moves.{
  Memos, fetch_signing_pk, Commit, nothing, record_pair, attested_signing_pk, attested_is,
  check_record, check_signing_pks,
}
use pigcloud_cli.Pins.Tee.Repinned.{in_retired}

attested_is-ok :
    (ed ml : String) (pk : Option (String × String)) {cmt : Commit}
    → attested_is ed ml pk ≡ ok cmt
    → (pk ≡ some (ed, ml)) × (cmt ≡ record_pair)
unfolding attested_is
attested_is-ok ed ml none h = cc
attested_is-ok ed ml (some (ed', ml')) h = ground (arith, same_iff ed' ed, same_iff ml' ml)

-- One of the retired pairs is this one.
abbrev pub Listed : String → String → List Retired → Type 0
Listed ed ml [] = ⊥
Listed ed ml (q ∷ l) = ((q.ed ≡ ed) × (q.ml ≡ ml)) ⊎ Listed ed ml l

-- The server's answer is whole, does not show its attestation as untrusted, has a verified quote
-- where it claims SGX, and names the pair.
pub record Vouches (r : Answer) (ed ml : String) : Type 0 where
  pub succeeds : r.success ≡ true
  pub enabled : r.enabled ≡ true
  pub available : r.available ≡ true
  pub not_untrusted : r.served.status ≢ "untrusted"
  pub quoted :
      r.served.mode ≡ "epid"
      → r.served.mrenclave ≢ ""
      → r.served.quote ≢ ""
      → r.served.status ≡ "trusted"
  pub ed_named : r.signing_ed ≡ ed
  pub ml_named : r.signing_ml ≡ ml
  pub ed_there : ed ≢ ""
  pub ml_there : ml ≢ ""

-- The session has the pair from before, or asks the server now, which vouches for it.
abbrev pub IsAttested : Memos → ℕ → Option Answer → String → String → Type 0
IsAttested m now answer ed ml =
    (m.attested ≡ some (ed, ml))
    ⊎ ((m.attested ≡ none)
        × (m.next_try ≤ now)
        × (r : Answer) × (answer ≡ some r)
        × Vouches r ed ml)

-- A pair that a check under the record `r` may answer with `cmt`.
abbrev pub Allowed : Memos → ℕ → Option Answer → String → String → Commit → Result Pin → Type 0
Allowed m now answer ed ml cmt (err e) = ⊥
Allowed m now answer ed ml cmt (ok r) =
    ((r.ed ≢ "")
      × (r.ml ≢ "")
      × (((r.ed ≡ ed) × (r.ml ≡ ml)) ⊎ Listed ed ml r.retired)
      × (cmt ≡ nothing))
    ⊎ (((r.ed ≡ "") ⊎ (r.ml ≡ "")) × IsAttested m now answer ed ml × (cmt ≡ record_pair))

not_empty : (s : String) → is_empty s ≡ false → s ≢ ""
not_empty s h e = absurd (ground (arith, same_iff s ""))

empty : (s : String) → is_empty s ≡ true → s ≡ ""
empty s h = (same_iff s "").0 h

in_retired-Listed : (ed ml : String) (l : List Retired) → in_retired ed ml l ≡ true → Listed ed ml l
in_retired-Listed ed ml [] h = absurd cc
in_retired-Listed ed ml (q ∷ l) h = elim (Bool-cases (same_pair q.ed q.ml ed ml)) [
  | inl hit ↦ inl (ground (arith, hit, same_iff q.ed ed, same_iff q.ml ml))
  | inr miss ↦ inr (in_retired-Listed ed ml l (rw miss at h))
]

pinned-there : (r : Pin) → pinned r ≡ true → (r.ed ≢ "") × (r.ml ≢ "")
unfolding pinned
pinned-there r h = (not_empty r.ed (ground (arith, h)), not_empty r.ml (ground (arith, h)))

unpinned-absent : (r : Pin) → pinned r ≡ false → (r.ed ≡ "") ⊎ (r.ml ≡ "")
unfolding pinned
unpinned-absent r h = elim (Bool-cases (is_empty r.ed)) [
  | inl gone ↦ inl (empty r.ed gone)
  | inr there ↦ inr (empty r.ml (ground (arith, h, there)))
]

accepts-either :
    (r : Pin) (ed ml : String)
    → accepts r ed ml ≡ true
    → ((r.ed ≡ ed) × (r.ml ≡ ml)) ⊎ Listed ed ml r.retired
unfolding accepts
accepts-either r ed ml h = elim (Bool-cases (pinned r && same_pair r.ed r.ml ed ml)) [
  | inl hit ↦ inl (ground (arith, hit, same_iff r.ed ed, same_iff r.ml ml))
  | inr miss ↦ inr (in_retired-Listed ed ml r.retired (rw miss at h))
]

fetch-Vouches :
    (r : Answer) (ed ml : String) → fetch_signing_pk (some r) ≡ ok (ed, ml) → Vouches r ed ml
unfolding fetch_signing_pk answerable sgx
fetch-Vouches r ed ml h = record {
  succeeds = ground arith;
  enabled = ground arith;
  available = ground arith;
  not_untrusted = ground (arith, same_iff r.served.status "untrusted");
  quoted = ground (
    arith,
    same_iff r.served.mode "epid",
    same_iff r.served.mrenclave "",
    same_iff r.served.quote "",
    same_iff r.served.status "trusted",
  );
  ed_named = ground arith;
  ml_named = ground arith;
  ed_there = ground (arith, same_iff r.signing_ed "");
  ml_there = ground (arith, same_iff r.signing_ml "");
}

fetched-Vouches :
    (answer : Option Answer) (ed ml : String)
    → fetch_signing_pk answer ≡ ok (ed, ml)
    → (r : Answer) × (answer ≡ some r) × Vouches r ed ml
fetched-Vouches none ed ml h = unfold fetch_signing_pk in absurd cc
fetched-Vouches (some r) ed ml h = (r, refl, fetch-Vouches r ed ml h)

result_cases :
    (x : Result (String × String))
    → ((pk : String × String) × (x ≡ ok pk)) ⊎ ((e : Error) × (x ≡ err e))
result_cases (ok pk) = inl (pk, refl)
result_cases (err e) = inr (e, refl)

attested_signing_pk-IsAttested :
    (m : Memos) (now : ℕ) (answer : Option Answer) (ed ml : String)
    → (attested_signing_pk m now answer).0 ≡ some (ed, ml)
    → IsAttested m now answer ed ml
unfolding attested_signing_pk
attested_signing_pk-IsAttested m now answer ed ml h = elim (Option-cases m.attested) [
  | inr (pk, known) ↦ inl (known ∙ (rw known at h))
  | inl unknown ↦ elim (Bool-cases (ltb now m.next_try)) [
    | inl early ↦ absurd (cc (rw (unknown, attested_signing_pk, early) at h))
    | inr late ↦ elim (result_cases (fetch_signing_pk answer)) [
      | inr (e, fails) ↦ absurd (cc (rw (unknown, attested_signing_pk, late, fails) at h))
      | inl (pk, gives) ↦
          let named : some pk ≡ some (ed, ml) =
            rw (unknown, attested_signing_pk, late, gives) at h in
          let (r, answered, vouched) = fetched-Vouches answer ed ml (gives ∙ cc) in
          inr (unknown, ground (arith, late), r, answered, vouched)
    ]
  ]
]

check_record-Allowed :
    (r : Result Pin) (m : Memos) (now : ℕ) (answer : Option Answer) (ed ml : String) {cmt : Commit}
    → (check_record r m now answer ed ml).0 ≡ ok cmt
    → Allowed m now answer ed ml cmt r
unfolding check_record
check_record-Allowed (err e) m now answer ed ml h = cc
check_record-Allowed (ok r) m now answer ed ml {cmt} h =
    let pk = (attested_signing_pk m now answer).0 in
    elim (Bool-cases (pinned r)) [
      | inl is_pinned ↦
          let found : (accepts r ed ml ≡ true) × (cmt ≡ nothing) = ground (arith, is_pinned) in
          let (ed_there, ml_there) = pinned-there r is_pinned in
          inl (ed_there, ml_there, accepts-either r ed ml found.0, found.1)
      | inr unpinned ↦
          let attested = attested_is-ok ed ml pk {cmt = cmt} (rw (unpinned, check_record) at h) in
          inr (
            unpinned-absent r unpinned,
            attested_signing_pk-IsAttested m now answer ed ml attested.0,
            attested.1,
          )
    ]

-- A check succeeds only in two cases. Either a pair of nonempty keys is pinned for the account, and the
-- pair is that one or one of the account's retired pairs: then nothing is to be recorded. Or no such
-- pair is pinned, and the pair is the one that the session has attested already, or else, where the
-- wait after the last request is over, the one that the server's answer names, the answer being
-- successful, enabled and available, not untrusted, verified where it claims SGX, and with both keys:
-- then the pair is to be recorded. It fails where the store cannot be read.
pub check_signing_pks-Allowed :
    (a : Account) (f : StoreFile) (m : Memos) (now : ℕ) (answer : Option Answer) (ed ml : String)
    {cmt : Commit}
    → (check_signing_pks a f m now answer ed ml).0 ≡ ok cmt
    → Allowed m now answer ed ml cmt (signing_record a f)
unfolding check_signing_pks
check_signing_pks-Allowed a f m now answer ed ml h =
    check_record-Allowed (signing_record a f) m now answer ed ml h

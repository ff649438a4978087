-- ===== src/Cache/Records/Ingest.antt =====
-- What Put and PutFile make of the store: internal/mount/cache/store.go.
use pigcloud_cli.Common.{
  ℕ, ◌+◌, ◌<◌, String, List, Bool, true, false, ◌&&◌, ◌≡◌, ◌≢◌, refl, sym, ◌∙◌, subst, inl, inr,
  Option, none, some, arith, if◌then◌else◌, lookup, insert, lookup-insert, lookup-insert_self, same,
  same_iff, Bool-cases, Option-cases,
}
use pigcloud_cli.Pins.Codec.{Bytes}
use pigcloud_cli.Cache.Records.{
  Aead, overhead, Stream, sealed, seal_failed, out_of_fuel, seal_stream, got,
}
use pigcloud_cli.Cache.Records.Vault.{
  get, Disk, Contents, commit, commit_stream, put_sealed, put, named, verified, put_file,
}
use pigcloud_cli.Cache.Records.Sealed.{Opens, AddsTag, GivesNonces}
use pigcloud_cli.Cache.Records.Restored.{IsSealed, seal_stream-IsSealed}

-- every step of the file system succeeds
abbrev pub all_done : Disk → Bool
all_done disk = disk.created && (disk.written && disk.renamed)

-- No two contents have one hash.
abbrev pub NoCollisions : (Bytes → String) → Type 0
NoCollisions sha = (p q : Bytes) → sha p ≡ sha q → p ≡ q

module _ (a : Aead) (size_of : ℕ) (sha : Bytes → String) where
  -- A blob holds a content, sealed under its hash.
  abbrev pub Keeps : Contents → String → Bytes → Type 0
  Keeps s hash content =
      (file : Bytes) × (lookup hash s.files ≡ some file)
      × (sha content ≡ hash)
      × IsSealed a size_of hash content file

  -- Every file of the store is such a blob.
  abbrev pub AreSound : List (String × Bytes) → Type 0
  AreSound files =
      (hash : String) (file : Bytes)
      → lookup hash files ≡ some file
      → (content : Bytes) × (sha content ≡ hash) × IsSealed a size_of hash content file

  abbrev pub IsSound : Contents → Type 0
  IsSound s = AreSound s.files

  -- The store answers with the content for its hash, and as before for every other.
  abbrev pub Answers : Contents → Contents → Bytes → Type 0
  Answers s s' content =
      (k : String) → get a s' k ≡ (if same (sha content) k then got content else get a s k)

  -- What a put leaves: the content under its hash and the rest as it was, or nothing new.
  abbrev pub Outcome : Contents → Bytes → Contents × Option String → Type 0
  Outcome s content (s', none) = s' ≡ s
  Outcome s content (s', some name) = (name ≡ sha content) × IsSound s' × Answers s s' content

  -- What a put of `content` under `hash` made: the blob, if it was to succeed, and no other change.
  abbrev Stored : Contents → String → Bytes → Contents × Bool → Type 0
  Stored s hash content (s', done) =
      IsSound s'
      × ((k : String) → k ≢ hash → lookup k s'.files ≡ lookup k s.files)
      × ((done ≡ true) → (c : Bytes) × Keeps s' hash c)
      × ((done ≡ false) → s' ≡ s)

  same-other : (hash k : String) → k ≢ hash → same hash k ≡ false
  same-other hash k h = ground (arith, same_iff hash k)

  insert-AreSound :
      (files : List (String × Bytes)) (hash : String) (content file : Bytes)
      → sha content ≡ hash
      → IsSealed a size_of hash content file
      → AreSound files
      → AreSound (insert hash file files)
  insert-AreSound files hash content file is_named is_sealed sound k other e =
      let e' = sym (lookup-insert hash k file files) ∙ e in
      elim (Bool-cases (same hash k)) [
        | inr miss ↦ sound k other (rw miss at e')
        | inl hit ↦
            let same_hash = (same_iff hash k).0 hit in
            let same_file : file ≡ other = cc (rw hit at e') in
            (
              content,
              is_named ∙ same_hash,
              subst (λ f. IsSealed a size_of k content f) same_file
                  (subst (λ h. IsSealed a size_of h content file) same_hash is_sealed),
            )
      ]

  module _ (s : Contents) (hash : String) (content : Bytes) (sound : IsSound s) where
    unchanged : Stored s hash content (s, false)
    unchanged = (sound, λ k h. refl, λ done. absurd cc, λ done. refl)

    commit-Stored :
        (disk : Disk) (file : Bytes)
        → sha content ≡ hash
        → IsSealed a size_of hash content file
        → Stored s hash content (commit disk s hash file)
    commit-Stored disk file is_named is_sealed = elim (Bool-cases disk.written) [
      | inr torn ↦ rw torn unchanged
      | inl written ↦ elim (Bool-cases disk.renamed) [
        | inr lost ↦ rw (written, lost) unchanged
        | inl renamed ↦
            rw (written, renamed)
              (
                insert-AreSound s.files hash content file is_named is_sealed sound,
                λ k other. rw (lookup-insert hash k file s.files, same-other hash k other) refl,
                λ done.
                    (content, (file, lookup-insert_self hash file s.files, is_named, is_sealed)),
                λ undone. absurd cc,
              )
      ]
    ]

    -- `out`, where it is a file, is the content's under its hash.
    abbrev Right : Stream → Type 0
    Right out =
        (file : Bytes)
        → out ≡ sealed file
        → (sha content ≡ hash) × IsSealed a size_of hash content file

    commit_stream-Stored :
        (disk : Disk) (out : Stream)
        → Right out
        → Stored s hash content (commit_stream disk s hash out)
    commit_stream-Stored disk (sealed file) right =
        commit-Stored disk file (right file refl).0 (right file refl).1
    commit_stream-Stored disk seal_failed right = unchanged
    commit_stream-Stored disk out_of_fuel right = unchanged

    put_sealed-Stored :
        (disk : Disk) (out : Stream)
        → Right out
        → Stored s hash content (put_sealed disk s hash out)
    unfolding put_sealed
    put_sealed-Stored disk out right = elim (Option-cases (lookup hash s.files)) [
      | inr (file, there) ↦
          let (c, is_named, is_sealed) = sound hash file there in
          rw (there, put_sealed)
            (
              sound,
              λ k h. refl,
              λ done. (c, (file, there, is_named, is_sealed)),
              λ undone. absurd cc,
            )
      | inl missing ↦
          rw (missing, put_sealed)
            (elim (Bool-cases disk.created) [
              | inr absent ↦ rw absent unchanged
              | inl made ↦ rw made (commit_stream-Stored disk out right)
            ])
    ]

  module _ (nonces : ℕ → Option Bytes) (opens : Opens a) (tags : AddsTag a)
      (gives : GivesNonces nonces) (positive : 0 < size_of)
      (small : size_of + overhead < 4294967296) where
    sealed-Right :
        (s : Contents) (hash : String) (content : Bytes) (sound : IsSound s)
        → sha content ≡ hash
        → Right s hash content sound (seal_stream a size_of hash nonces content)
    sealed-Right s hash content sound is_named file e =
        let (file', e', is_sealed) =
          seal_stream-IsSealed a size_of hash nonces content opens tags gives positive small in
        let same_file : file' ≡ file = cc (e, e') in
        (is_named, subst (λ f. IsSealed a size_of hash content f) same_file is_sealed)

    pub get-Keeps :
        (s : Contents) (hash : String) (content : Bytes)
        → Keeps s hash content
        → get a s hash ≡ got content
    unfolding get
    get-Keeps s hash content (file, there, is_named, is_sealed) = rw (there, get) is_sealed.0

    get-unchanged :
        (s s' : Contents) (k : String)
        → lookup k s'.files ≡ lookup k s.files
        → get a s' k ≡ get a s k
    unfolding get
    get-unchanged s s' k e = rw e refl

    Keeps-content :
        (s s' : Contents) (content : Bytes)
        → NoCollisions sha
        → Stored s (sha content) content (s', true)
        → Keeps s' (sha content) content
    Keeps-content s s' content distinct (sound, others, there, undone) =
        let (c, kept) = there refl in
        let (file, found, is_named, is_sealed) = kept in
        let same_content : c ≡ content = distinct c content is_named in
        subst (Keeps s' (sha content)) same_content kept

    Stored-Answers :
        (s s' : Contents) (content : Bytes)
        → NoCollisions sha
        → Stored s (sha content) content (s', true)
        → Answers s s' content
    Stored-Answers s s' content distinct stored k = elim (Bool-cases (same (sha content) k)) [
      | inl hit ↦
          let same_hash = (same_iff (sha content) k).0 hit in
          rw hit (
            subst (λ h. get a s' h ≡ got content) same_hash
              (get-Keeps s' (sha content) content (Keeps-content s s' content distinct stored)))
      | inr miss ↦ rw miss (
          get-unchanged s s' k
            (stored.1 k (λ e. absurd (cc (miss, (same_iff (sha content) k).1 (sym e))))))
    ]

    named-Outcome :
        (s : Contents) (content : Bytes) (r : Contents × Bool)
        → NoCollisions sha
        → Stored s (sha content) content r
        → Outcome s content (named (sha content) r)
    named-Outcome s content (s', true) distinct stored =
        (refl, stored.0, Stored-Answers s s' content distinct stored)
    named-Outcome s content (s', false) distinct stored = stored.3 refl

    pub put-outcome :
        (disk : Disk) (s : Contents) (content : Bytes)
        → NoCollisions sha
        → IsSound s
        → Outcome s content (put a size_of sha nonces disk s content)
    unfolding put
    put-outcome disk s content distinct sound =
        named-Outcome s content
          (put_sealed disk s (sha content) (seal_stream a size_of (sha content) nonces content))
          distinct
          (put_sealed-Stored s (sha content) content sound disk
            (seal_stream a size_of (sha content) nonces content)
            (sealed-Right s (sha content) content sound refl))

    verified-Right :
        (s : Contents) (before later : Bytes) (sound : IsSound s) (b : Bool)
        → NoCollisions sha
        → same (sha later) (sha before) ≡ b
        → Right s
            (sha before)
            before
            sound
            (verified b (seal_stream a size_of (sha before) nonces later))
    verified-Right s before later sound false distinct h file e = absurd cc
    verified-Right s before later sound true distinct h file e =
        let same_content : later ≡ before =
          distinct later before ((same_iff (sha later) (sha before)).0 h) in
        sealed-Right s (sha before) before sound refl file (rw same_content at e)

    pub put_file-outcome :
        (disk : Disk) (s : Contents) (before later : Bytes)
        → NoCollisions sha
        → IsSound s
        → Outcome s before (put_file a size_of sha nonces disk s before later)
    unfolding put_file
    put_file-outcome disk s before later distinct sound =
        let out =
          verified (same (sha later) (sha before))
            (seal_stream a size_of (sha before) nonces later) in
        named-Outcome s before (put_sealed disk s (sha before) out) distinct (
          put_sealed-Stored s (sha before) before sound disk out
            (verified-Right s before later sound (same (sha later) (sha before)) distinct refl))

    put_sealed-done :
        (disk : Disk) (s : Contents) (hash : String) (out : Stream) (file : Bytes)
        → out ≡ sealed file
        → all_done disk ≡ true
        → (put_sealed disk s hash out).1 ≡ true
    unfolding put_sealed
    put_sealed-done disk s hash out file e all = rw e (ground arith)

    named-Keeps :
        (s : Contents) (content : Bytes) (r : Contents × Bool)
        → NoCollisions sha
        → Stored s (sha content) content r
        → r.1 ≡ true
        → ((named (sha content) r).1 ≡ some (sha content))
          × Keeps (named (sha content) r).0 (sha content) content
    named-Keeps s content (s', true) distinct stored h =
        (refl, Keeps-content s s' content distinct stored)
    named-Keeps s content (s', false) distinct stored h = absurd cc

    -- Where the disk does all that is asked, the blob is there.
    pub put-Keeps :
        (disk : Disk) (s : Contents) (content : Bytes)
        → NoCollisions sha
        → IsSound s
        → all_done disk ≡ true
        → let (s', name) = put a size_of sha nonces disk s content in
          (name ≡ some (sha content)) × Keeps s' (sha content) content
    unfolding put
    put-Keeps disk s content distinct sound all =
        let hash = sha content in
        let out = seal_stream a size_of hash nonces content in
        let (file, e, is_sealed) =
          seal_stream-IsSealed a size_of hash nonces content opens tags gives positive small in
        named-Keeps s content (put_sealed disk s hash out) distinct
          (put_sealed-Stored s hash content sound disk out (sealed-Right s hash content sound refl))
          (put_sealed-done disk s hash out file e all)

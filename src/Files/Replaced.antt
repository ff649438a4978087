-- ===== src/Files/Replaced.antt =====
-- What an atomic write leaves: internal/fsutil/atomic.go.
use pigcloud_cli.Common.{
  ℕ, String, [], ◌∷◌, Bool, true, false, not, ◌≡◌, ◌≢◌, refl, sym, ◌∙◌, ap, inl, inr, Option, none,
  some, arith, same, same_iff, same_refl, if◌then◌else◌, if_both, if_true, lookup, insert,
  lookup-insert, Bool-cases, subst,
}
use pigcloud_cli.Files.{
  Bytes, Files, Calls, remove, moved, rename, stops, part, write_temp, after_create,
  write_file_atomic_guarded,
}

lookup-remove :
    (gone name : String) (l : Files)
    → lookup name (remove gone l) ≡ (if same gone name then none else lookup name l)
unfolding lookup remove
lookup-remove gone name [] = ground arith
lookup-remove gone name ((k, b) ∷ l) =
    ground (arith, lookup-remove gone name l, same_iff k gone, same_iff k name, same_iff gone name)

if_cases {ℓ κ} :
    {A : Type ℓ} (P : A → Type κ) (b : Bool) (p q : A)
    → (b ≡ true → P p)
    → (b ≡ false → P q)
    → P (if b then p else q)
if_cases P true p q hp hq = hp refl
if_cases P false p q hp hq = hq refl

-- The file has the new content, and every other file the old one; the guard held when the new
-- content was whole under another name and the file had its old content still.
abbrev pub Committed : (Files → Bool) → String → Bytes → Files → Files → Type 0
Committed guard path content files files' =
    (lookup path files' ≡ some content)
    × ((q : String) → q ≢ path → lookup q files' ≡ lookup q files)
    × ((before : Files) × (temp : String) × (guard before ≡ true)
        × (lookup temp before ≡ some content)
        × (lookup path before ≡ lookup path files))

-- Every file but the temporary one has its old content, and where the clean-up works, that is gone.
abbrev pub Untouched : Calls → Files → Files → Type 0
Untouched c files files' =
    ((q : String) → c.temp ≢ some q → lookup q files' ≡ lookup q files)
    × (c.remove_works ≡ true → (q : String) → lookup q files' ≡ lookup q files)

abbrev pub Ends : Calls → (Files → Bool) → String → Bytes → Files → Files × Bool → Type 0
Ends c guard path content files (files', true) = Committed guard path content files files'
Ends c guard path content files (files', false) = Untouched c files files'

part-whole : (o : Option ℕ) (content : Bytes) → stops o ≡ false → part o content ≡ content
part-whole none content h = refl
part-whole (some k) content h = absurd cc

module _ (c : Calls) (guard : Files → Bool) (path : String) (content : Bytes) (temp : String)
    (files : Files) (named : c.temp ≡ some temp) (fresh : lookup temp files ≡ none)
    (other : same temp path ≡ false) where
  written : Bytes → Files
  written b = insert temp b files

  lookup-written :
      (b : Bytes) (q : String)
      → lookup q (written b) ≡ (if same temp q then some b else lookup q files)
  unfolding written
  lookup-written b q = lookup-insert temp q b files

  lookup-cleaned :
      (b : Bytes) (q : String)
      → lookup q (remove temp (written b)) ≡ (if same temp q then none else lookup q files)
  lookup-cleaned b q = lookup-remove temp q (written b) ∙ ground (arith, lookup-written b q)

  cleaned-same : (b : Bytes) (q : String) → lookup q (remove temp (written b)) ≡ lookup q files
  cleaned-same b q = lookup-cleaned b q ∙ elim (Bool-cases (same temp q)) [
    | inl hit ↦ rw hit (sym fresh ∙ ap (λ t. lookup t files) ((same_iff temp q).0 hit))
    | inr miss ↦ rw miss refl
  ]

  not_temp : (q : String) → c.temp ≢ some q → same temp q ≡ false
  not_temp q h = elim (Bool-cases (same temp q)) [
    | inl hit ↦ absurd (h (named ∙ ap some ((same_iff temp q).0 hit)))
    | inr miss ↦ miss
  ]

  aborted-Untouched :
      (b : Bytes)
      → Untouched c files (if c.remove_works then remove temp (written b) else written b)
  aborted-Untouched b = (
    (λ q h.
        if_both (λ t. lookup q t ≡ lookup q files) c.remove_works (remove temp (written b))
          (written b) (cleaned-same b q) (lookup-written b q ∙ rw (not_temp q h) refl)),
    (λ works q.
        subst (λ t. lookup q t ≡ lookup q files) (sym (if_true c.remove_works _ _ works))
          (cleaned-same b q)),
  )

  renamed : Bytes → Files
  renamed b = insert path b (remove temp (written b))

  rename-written : (b : Bytes) → rename temp path (written b) ≡ renamed b
  unfolding rename renamed
  rename-written b =
      let found : lookup temp (written b) ≡ some b =
        lookup-written b temp ∙ rw (same_refl temp) refl in
      ap (moved temp path (written b)) found

  committed :
      (b : Bytes)
      → b ≡ content
      → guard (written b) ≡ true
      → Committed guard path content files (rename temp path (written b))
  unfolding renamed
  committed b whole held = subst (Committed guard path content files) (sym (rename-written b)) (
    lookup-insert path path b (remove temp (written b)) ∙ rw (same_refl path) (ap some whole),
    (λ q h.
        lookup-insert path q b (remove temp (written b)) ∙ rw (is_other q h) (cleaned-same b q)),
    (
      written b,
      temp,
      held,
      lookup-written b temp ∙ rw (same_refl temp) (ap some whole),
      lookup-written b path ∙ rw other refl,
    ),
  )
    where
      is_other : (q : String) → q ≢ path → same path q ≡ false
      is_other q h = elim (Bool-cases (same path q)) [
        | inl hit ↦ absurd (h (sym ((same_iff path q).0 hit)))
        | inr miss ↦ miss
      ]

  write_temp-Ends : Ends c guard path content files (write_temp c guard path content temp files)
  unfolding write_temp written
  write_temp-Ends =
      let b = part c.stops_after content in
      let ends = λ (t : Files × Bool). Ends c guard path content files t in
      let stopped = aborted-Untouched b in
      if_both ends (not c.chmod_works) _ _ (aborted-Untouched []) (
        if_cases ends (stops c.stops_after) _ _ (λ h. stopped)
          (λ whole. if_both ends (not c.sync_works) _ _ stopped (
            if_both ends (not c.close_works) _ _ stopped (
              if_cases ends (not (guard (written b))) _ _ (λ h. stopped)
                (λ held.
                  if_both ends (not c.rename_works) _ _ stopped (
                    committed b (part-whole c.stops_after content whole)
                      (ground (arith, held))))))))

-- A name that CreateTemp gives is that of no file, and not the path.
abbrev pub IsNew : Calls → String → Files → Type 0
IsNew c path files =
    (temp : String) → c.temp ≡ some temp → (lookup temp files ≡ none) × (same temp path ≡ false)

after_create-Ends :
    (c : Calls) (guard : Files → Bool) (path : String) (content : Bytes) (files : Files)
    (o : Option String)
    → c.temp ≡ o
    → IsNew c path files
    → Ends c guard path content files (after_create c guard path content files o)
after_create-Ends c guard path content files none named is_new = ((λ q h. refl), (λ works q. refl))
after_create-Ends c guard path content files (some temp) named is_new =
    let (fresh, other) = is_new temp named in
    write_temp-Ends c guard path content temp files named fresh other

-- An atomic write that succeeds leaves the file with the new content and every other file as it was,
-- and its guard held when the whole new content stood under another name and the file had its old
-- content still. One that fails, at whatever step, leaves the file and every other file as they
-- were; the temporary file may stay only where its removal fails too. This is where CreateTemp gives
-- a name that no file has, and that is not the file's.
pub write_file_atomic_guarded-Ends :
    (c : Calls) (guard : Files → Bool) (path : String) (content : Bytes) (files : Files)
    → IsNew c path files
    → Ends c guard path content files (write_file_atomic_guarded c guard path content files)
unfolding write_file_atomic_guarded
write_file_atomic_guarded-Ends c guard path content files is_new =
    after_create-Ends c guard path content files c.temp refl is_new

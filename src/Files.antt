-- ===== src/Files.antt =====
-- The atomic replacement of a file: WriteFileAtomic and WriteFileAtomicGuarded of
-- internal/fsutil/atomic.go. The files are those of one directory by name, with their contents;
-- what the system answers to each call is given.
pub mod Replaced
use pigcloud_cli.Common.{
  ℕ, String, List, [], ◌∷◌, Bool, true, false, not, Option, none, some, same, if◌then◌else◌, keep,
  lookup, insert, take,
}

abbrev pub Bytes : Type 0
Bytes = List ℕ

abbrev pub Files : Type 0
Files = List (String × Bytes)

-- The name that CreateTemp gives, how much a failing Write has written, and which calls work.
pub record Calls : Type 0 where
  pub temp : Option String
  pub chmod_works : Bool
  pub stops_after : Option ℕ
  pub sync_works : Bool
  pub close_works : Bool
  pub rename_works : Bool
  pub remove_works : Bool

-- os.Remove
unfoldable pub remove : String → Files → Files
remove name files = keep (λ c. not (same c.0 name)) files

-- the deferred clean-up, where nothing was committed
abbrev pub aborted : Calls → String → Files → Files × Bool
aborted c temp files = (if c.remove_works then remove temp files else files, false)

abbrev pub moved : String → String → Files → Option Bytes → Files
moved temp path files none = files
moved temp path files (some content) = insert path content (remove temp files)

-- os.Rename
unfoldable pub rename : String → String → Files → Files
rename temp path files = moved temp path files (lookup temp files)

abbrev pub stops : Option ℕ → Bool
stops none = false
stops (some k) = true

abbrev pub part : Option ℕ → Bytes → Bytes
part none content = content
part (some k) content = take k content

-- once the temporary file is there
unfoldable pub write_temp : Calls → (Files → Bool) → String → Bytes → String → Files → Files × Bool
write_temp c guard path content temp files =
    let created = insert temp [] files in
    let written = insert temp (part c.stops_after content) files in
    if not c.chmod_works
    then aborted c temp created
    else if stops c.stops_after
    then aborted c temp written
    else if not c.sync_works
    then aborted c temp written
    else if not c.close_works
    then aborted c temp written
    else if not (guard written)
    then aborted c temp written
    else if not c.rename_works
    then aborted c temp written
    else (rename temp path written, true)

abbrev pub after_create :
    Calls → (Files → Bool) → String → Bytes → Files → Option String → Files × Bool
after_create c guard path content files none = (files, false)
after_create c guard path content files (some temp) = write_temp c guard path content temp files

-- WriteFileAtomicGuarded: the files, and whether it succeeds
unfoldable pub write_file_atomic_guarded :
    Calls → (Files → Bool) → String → Bytes → Files → Files × Bool
write_file_atomic_guarded c guard path content files =
    after_create c guard path content files c.temp

-- WriteFileAtomic
unfoldable pub write_file_atomic : Calls → String → Bytes → Files → Files × Bool
write_file_atomic c = write_file_atomic_guarded c (λ files. true)

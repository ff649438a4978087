-- ===== src/Tests/Replacing.antt =====
-- An atomic write in a directory of two files.
use pigcloud_cli.Common.{[], ◌∷◌, true, false, ◌≡◌, refl, none, some, same, lookup, subst}
use pigcloud_cli.Files.{Files, Calls, write_file_atomic_guarded}
use pigcloud_cli.Files.Replaced.{IsNew, Ends, write_file_atomic_guarded-Ends}

abbrev directory : Files
directory = ("a", 1 ∷ []) ∷ ("b", 2 ∷ []) ∷ []

-- The write stops after one byte.
abbrev calls : Calls
calls = record {
  temp = some "t";
  chmod_works = true;
  stops_after = some 1;
  sync_works = true;
  close_works = true;
  rename_works = true;
  remove_works = true;
}

calls-IsNew : IsNew calls "a" directory
unfolding lookup
calls-IsNew temp h =
    let it : "t" ≡ temp = cc h in
    subst (λ t. (lookup t directory ≡ none) × (same t "a" ≡ false)) it (refl, refl)

write_file_atomic_guarded-Ends_example :
    Ends calls
      (λ files. true)
      "a"
      (7 ∷ 8 ∷ [])
      directory
      (write_file_atomic_guarded calls (λ files. true) "a" (7 ∷ 8 ∷ []) directory)
write_file_atomic_guarded-Ends_example =
    write_file_atomic_guarded-Ends calls (λ files. true) "a" (7 ∷ 8 ∷ []) directory calls-IsNew

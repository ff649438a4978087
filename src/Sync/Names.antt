-- ===== src/Sync/Names.antt =====
-- Which names the mount takes: ValidateFile, ValidateDirName, IsExcludedDir and IsSafeName of
-- internal/mount/vfs/validate.go, with its parts for one platform, shouldIgnore of
-- internal/mount/syncer/watcher.go and the remote paths of both. Names are texts of characters. The
-- table of file types and the lower case of characters outside ASCII are parameters.
use Prim.Native.String
use pigcloud_cli.Common.{
  ℕ, ◌+◌, ◌-◌, String, [], ◌∷◌, Bool, true, false, not, ◌&&◌, ◌||◌, Option, none, some, ltb, leb,
  ◌==◌, same, is_empty, codes, if◌then◌else◌, length, any, drop, map,
}
use pigcloud_cli.Pins.Codec.{Bytes}

-- typeMap of internal/filetypes, and unicode.ToLower outside ASCII
pub record FileTypes : Type 0 where
  pub type_map : Bytes → Option String
  pub lower : ℕ → ℕ

abbrev pub type_or_other : Option String → String
type_or_other none = "other"
type_or_other (some t) = t

-- filetypes.TypeOf
unfoldable pub type_of : FileTypes → Bytes → String
type_of t ext = type_or_other (t.type_map ext)

abbrev pub within : ℕ → ℕ → ℕ → Bool
within lo hi c = leb lo c && leb c hi

-- strings.ToLower
abbrev pub to_lower : FileTypes → ℕ → ℕ
to_lower t c = if within b'A' b'Z' c then c + 32 else if ltb c 128 then c else t.lower c

-- what follows the last dot of the last element of a path: filepath.Ext without the dot
after_dot : Bytes → Bytes → Bytes
after_dot found [] = found
after_dot found (c ∷ cs) = after_dot (if c == b'/' then [] else if c == b'.' then cs else found) cs

unfoldable pub extension : FileTypes → String → Bytes
unfolding after_dot
extension t name = map (to_lower t) (after_dot [] (codes name))

-- a-z, A-Z, 0-9, underscore, space, the umlauts and the sharp s, the hyphen
abbrev pub in_folder_class : ℕ → Bool
in_folder_class c =
    within b'a' b'z' c
    || within b'A' b'Z' c
    || within b'0' b'9' c
    || any (λ d. d == c) (95 ∷ 32 ∷ 228 ∷ 246 ∷ 252 ∷ 196 ∷ 214 ∷ 220 ∷ 223 ∷ 45 ∷ [])

abbrev pub in_name_class : ℕ → Bool
in_name_class c = in_folder_class c || c == b'.'

all_in : (ℕ → Bool) → Bytes → Bool
all_in p [] = true
all_in p (c ∷ cs) = p c && all_in p cs

-- validNameRegex and validFolderRegex
unfoldable pub matches : (ℕ → Bool) → String → Bool
unfolding all_in
matches p name = not (is_empty name) && all_in p (codes name)

-- MaxUploadSize
abbrev pub max_upload_size : ℕ
max_upload_size = 5368709120

-- Why a file is not taken; `unsupported` carries the extension.
pub data Refusal : Type 0 where
  unsupported : Bytes → Refusal
  too_large bad_name : Refusal

-- ValidateFile; `none` is true
unfoldable pub validate_file : FileTypes → String → ℕ → Option Refusal
validate_file t name size =
    if not (length (extension t name) == 0) && same (type_of t (extension t name)) "other"
    then some (unsupported (extension t name))
    else if ltb max_upload_size size
    then some too_large
    else if not (matches in_name_class name)
    then some bad_name
    else none

-- ValidateDirName
unfoldable pub validate_dir_name : String → Bool
validate_dir_name name = matches in_folder_class name

-- IsExcludedDir
unfoldable pub is_excluded_dir : String → Bool
is_excluded_dir name = same name ".Trash" || same name ".Favorites" || same name ".Recents"

-- IsSafeName, with what isSafeNamePlatform says
unfoldable pub is_safe_name : (String → Bool) → String → Bool
is_safe_name platform name =
    if is_empty name || same name "." || same name ".."
    then false
    else if any (λ c. c == b'/' || c == 92 || c == 0) (codes name)
    then false
    else platform name

is_prefix : Bytes → Bytes → Bool
is_prefix [] cs = true
is_prefix (p ∷ ps) [] = false
is_prefix (p ∷ ps) (c ∷ cs) = p == c && is_prefix ps cs

-- strings.HasPrefix and strings.HasSuffix
unfoldable pub has_prefix : String → String → Bool
unfolding is_prefix
has_prefix name p = is_prefix (codes p) (codes name)

unfoldable pub has_suffix : String → String → Bool
unfolding is_prefix
has_suffix name s =
    let l = codes name in
    leb (length (codes s)) (length l) && is_prefix (codes s) (drop (length l - length (codes s)) l)

-- shouldIgnore
unfoldable pub should_ignore : String → Bool
should_ignore name =
    if any (same name) (".DS_Store" ∷ "Thumbs.db" ∷ "desktop.ini" ∷ [])
    then true
    else if any (has_prefix name) ("~$" ∷ ".pig" ∷ [])
    then true
    else if any (has_suffix name) (".swp" ∷ ".tmp" ∷ ".crdownload" ∷ ".part" ∷ [])
    then true
    else has_prefix name "." && not (same name ".") && not (same name "..")

-- joinPath
unfoldable pub join_path : String → String → String
join_path parent child =
    if is_empty parent then child else String.◌++◌ parent (String.◌++◌ "/" child)

-- toRemote and toRemotePath, of a path that filepath.Rel gives in slashes
unfoldable pub to_remote : String → String → String
to_remote base rel =
    if same rel "."
    then base
    else if is_empty base || same base "/"
    then rel
    else String.◌++◌ base (String.◌++◌ "/" rel)

unfoldable pub to_remote_path : String → String → String
to_remote_path base rel =
    if is_empty base || same base "/" then rel else String.◌++◌ base (String.◌++◌ "/" rel)

-- ===== src/Shell.antt =====
-- The interactive shell's splitting of a line: parseCommandLine of cmd/sh.go. A line is its list of
-- code points.
pub mod Quoting
use pigcloud_cli.Common.{
  ℕ, List, [], ◌∷◌, ◌++◌, Bool, true, false, not, ◌&&◌, ◌||◌, ltb, ◌==◌, if◌then◌else◌, length,
}

abbrev pub Runes : Type 0
Runes = List ℕ

-- the variables of the loop
pub record Scan : Type 0 where
  pub args : List Runes
  pub current : Runes
  pub in_quote : Bool
  pub quote_char : ℕ

abbrev pub is_quote : ℕ → Bool
is_quote r = r == b'"' || r == b'\''

-- if current.Len() > 0 { append and reset }
abbrev pub flush : Scan → Scan
flush s =
    if ltb 0 (length s.current)
    then record s { args = s.args ++ s.current ∷ []; current = [] }
    else s

abbrev pub write_rune : ℕ → Scan → Scan
write_rune r s = record s { current = s.current ++ r ∷ [] }

-- one turn of the loop
unfoldable pub step : ℕ → Scan → Scan
step r s =
    if is_quote r
    then if s.in_quote && r == s.quote_char
      then record s { in_quote = false; quote_char = 0 }
      else if not s.in_quote
      then record s { in_quote = true; quote_char = r }
      else write_rune r s
    else if r == b' ' && not s.in_quote
    then flush s
    else write_rune r s

unfoldable pub run : Scan → Runes → Scan
run s [] = s
run s (r ∷ rs) = run (step r s) rs

abbrev pub started : Scan
started = record { args = []; current = []; in_quote = false; quote_char = 0 }

-- parseCommandLine
unfoldable pub parse_command_line : Runes → List Runes
parse_command_line line = (flush (run started line)).args

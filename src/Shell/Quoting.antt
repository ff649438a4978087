-- ===== src/Shell/Quoting.antt =====
-- A line that is quoted is split into the words that it was made of: cmd/sh.go.
use pigcloud_cli.Common.{
  ℕ, suc, List, [], ◌∷◌, ◌++◌, Bool, true, keep, false, ◌||◌, ◌≡◌, refl, sym, ◌∙◌, ap, arith, ltb,
  ◌==◌, ==_iff, length, map, append_assoc, append-nil, All,
}
use pigcloud_cli.Shell.{Runes, Scan, is_quote, flush, step, run, parse_command_line}

-- A word of a line: bare, or between two double or two single quotes.
pub data Word : Type 0 where
  bare double single : Runes → Word

abbrev pub content : Word → Runes
content (bare w) = w
content (double w) = w
content (single w) = w

abbrev pub written : Word → Runes
written (bare w) = w
written (double w) = b'"' ∷ (w ++ b'"' ∷ [])
written (single w) = b'\'' ∷ (w ++ b'\'' ∷ [])

-- the words with a space between them
abbrev pub line_of : List Word → Runes
line_of [] = []
line_of (w ∷ []) = written w
line_of (w ∷ v ∷ ws) = written w ++ (b' ' ∷ line_of (v ∷ ws))

-- A bare word has no space and no quote, another not the quote that it stands in.
abbrev pub Sound : Word → Type 0
Sound (bare w) = All (λ r. (is_quote r || r == b' ') ≡ false) w
Sound (double w) = All (λ r. (r == b'"') ≡ false) w
Sound (single w) = All (λ r. (r == b'\'') ≡ false) w

abbrev pub filled : Runes → Bool
filled w = ltb 0 (length w)

run-append : (s : Scan) (xs ys : Runes) → run s (xs ++ ys) ≡ run (run s xs) ys
unfolding run
run-append s [] ys = refl
run-append s (x ∷ xs) ys = run-append (step x s) xs ys

abbrev outside : List Runes → Runes → Scan
outside args cur = record { args = args; current = cur; in_quote = false; quote_char = 0 }

abbrev inside : ℕ → List Runes → Runes → Scan
inside q args cur = record { args = args; current = cur; in_quote = true; quote_char = q }

step-inside :
    (q r : ℕ) (args : List Runes) (cur : Runes)
    → (r == q) ≡ false
    → step r (inside q args cur) ≡ inside q args (cur ++ r ∷ [])
unfolding step
step-inside q r args cur h = ground arith

run-inside :
    (q : ℕ) (args : List Runes) (cur w : Runes)
    → All (λ r. (r == q) ≡ false) w
    → run (inside q args cur) w ≡ inside q args (cur ++ w)
unfolding run
run-inside q args cur [] h = rw (append-nil cur) refl
run-inside q args cur (r ∷ w) h =
    rw (step-inside q r args cur h.0)
      (run-inside q args (cur ++ r ∷ []) w h.1 ∙ ap (inside q args) (append_assoc cur (r ∷ []) w))

step-bare :
    (r : ℕ) (args : List Runes) (cur : Runes)
    → (is_quote r || r == b' ') ≡ false
    → step r (outside args cur) ≡ outside args (cur ++ r ∷ [])
unfolding step
step-bare r args cur h = ground arith

run-bare :
    (args : List Runes) (cur w : Runes)
    → All (λ r. (is_quote r || r == b' ') ≡ false) w
    → run (outside args cur) w ≡ outside args (cur ++ w)
unfolding run
run-bare args cur [] h = rw (append-nil cur) refl
run-bare args cur (r ∷ w) h =
    rw (step-bare r args cur h.0)
      (run-bare args (cur ++ r ∷ []) w h.1 ∙ ap (outside args) (append_assoc cur (r ∷ []) w))

opens :
    (q : ℕ) (args : List Runes) → is_quote q ≡ true → step q (outside args []) ≡ inside q args []
unfolding step
opens q args quote = rw quote refl

closes :
    (q : ℕ) (args : List Runes) (w : Runes)
    → is_quote q ≡ true
    → run (inside q args w) (q ∷ []) ≡ outside args w
unfolding run step
closes q args w quote = rw ((==_iff q q).1 refl) (ground arith)

run-quoted :
    (q : ℕ) (args : List Runes) (w : Runes)
    → is_quote q ≡ true
    → All (λ r. (r == q) ≡ false) w
    → run (outside args []) (q ∷ (w ++ q ∷ [])) ≡ outside args w
unfolding run
run-quoted q args w quote h =
    rw (opens q args quote, run)
      (run-append (inside q args []) w (q ∷ [])
        ∙ rw (run-inside q args [] w h) (closes q args w quote))

run-written :
    (args : List Runes) (w : Word)
    → Sound w
    → run (outside args []) (written w) ≡ outside args (content w)
run-written args (bare w) h = run-bare args [] w h
run-written args (double w) h = run-quoted b'"' args w refl h
run-written args (single w) h = run-quoted b'\'' args w refl h

-- A space outside quotes ends a word, if there is one.
run-space :
    (args : List Runes) (w rest : Runes)
    → run (outside args w) (b' ' ∷ rest) ≡ run (outside (args ++ keep filled (w ∷ [])) []) rest
unfolding run step flush
run-space args [] rest = rw (append-nil args) refl
run-space args (r ∷ w) rest =
    let some_runes : ltb 0 (suc (length w)) ≡ true = ground arith in rw some_runes refl

run-end :
    (args : List Runes) (w : Runes) → (flush (outside args w)).args ≡ args ++ keep filled (w ∷ [])
unfolding flush
run-end args [] = sym (append-nil args)
run-end args (r ∷ w) = ground arith

keep-cons :
    (w : Runes) (ws : List Runes) → keep filled (w ∷ ws) ≡ keep filled (w ∷ []) ++ keep filled ws
keep-cons [] ws = refl
keep-cons (r ∷ w) ws = ground arith

run-line_of :
    (args : List Runes) (ws : List Word)
    → All Sound ws
    → (flush (run (outside args []) (line_of ws))).args ≡ args ++ keep filled (map content ws)
run-line_of args [] h = unfold run in run-end args []
run-line_of args (w ∷ []) h = rw (run-written args w h.0) (run-end args (content w))
run-line_of args (w ∷ v ∷ ws) h =
    rw (run-append (outside args []) (written w) (b' ' ∷ line_of (v ∷ ws)), run-written args w h.0)
      (rw (run-space args (content w) (line_of (v ∷ ws))) (
        run-line_of (args ++ keep filled (content w ∷ [])) (v ∷ ws) h.1
        ∙ append_assoc args (keep filled (content w ∷ [])) (keep filled (map content (v ∷ ws)))
        ∙ ap (λ l. args ++ l) (sym (keep-cons (content w) (map content (v ∷ ws))))))

-- A line of words with one space between two of them is split into the contents of those of its words
-- that are not empty, in order: a word is bare, and has no space and no quote, or it stands between two
-- quotes of one kind, and has no such quote; spaces and the other quote stay where they are quoted.
-- An empty word, quoted or not, gives nothing.
pub parse_command_line-line_of :
    (ws : List Word) → All Sound ws → parse_command_line (line_of ws) ≡ keep filled (map content ws)
unfolding parse_command_line
parse_command_line-line_of ws h = run-line_of [] ws h

-- ===== src/Common/Regexp.antt =====
-- The parts of Go's regular expressions that the code uses, as matchers over code points. A matcher
-- is given whether a word character came before, the text that is left, and what has to match
-- behind it. `\s`, `\w` and `\b` are ASCII; `(?i)` folds two letters beyond ASCII.
use Prim.Native.Nat.{ℕ, ◌+◌}
use mathlib.Core.Bool.{Bool, true, false, ◌&&◌, ◌||◌, not}
use mathlib.Core.List.{[], ◌∷◌}
use myapptest.Common.Tests.{leb, nat_beq, if◌then◌else◌}
use myapptest.Common.Texts.{Text}

abbrev pub Matcher : Type 0
Matcher = Bool → Text → Bool

-- `\s`
abbrev pub is_blank : ℕ → Bool
is_blank c = nat_beq c 9 || nat_beq c 10 || nat_beq c 12 || nat_beq c 13 || nat_beq c 32

-- `\w`
abbrev pub is_word : ℕ → Bool
is_word c =
    (leb b'0' c && leb c b'9')
    || (leb b'A' c && leb c b'Z')
    || nat_beq c b'_'
    || (leb b'a' c && leb c b'z')

-- What `(?i)` compares: `ſ` is an `s` and the Kelvin sign a `k`.
abbrev pub fold_case : ℕ → ℕ
fold_case c =
    if leb b'A' c && leb c b'Z'
    then c + 32
    else if nat_beq c 0x17F
    then b's'
    else if nat_beq c 0x212A
    then b'k'
    else c

abbrev pub same_case : ℕ → ℕ
same_case c = c

abbrev pub matched : Matcher
matched before s = true

-- `$`
abbrev pub at_end : Matcher
at_end before [] = true
at_end before (c ∷ s) = false

-- `\b`
unfoldable pub boundary : Matcher → Matcher
boundary next before [] = before && next before []
boundary next before (c ∷ s) =
    (if before then not (is_word c) else is_word c) && next before (c ∷ s)

-- A literal, with the function that forgets the case or keeps it.
unfoldable pub literal : (ℕ → ℕ) → Text → Matcher → Matcher
literal fold [] next before s = next before s
literal fold (w ∷ ws) next before [] = false
literal fold (w ∷ ws) next before (c ∷ s) = nat_beq w (fold c) && literal fold ws next (is_word c) s

-- A code point that passes a test.
unfoldable pub one : (ℕ → Bool) → Matcher → Matcher
one test next before [] = false
one test next before (c ∷ s) = test c && next (is_word c) s

-- Any number of code points that pass a test.
unfoldable pub many : (ℕ → Bool) → Matcher → Matcher
many test next before [] = next before []
many test next before (c ∷ s) = next before (c ∷ s) || (test c && many test next (is_word c) s)

-- A match that begins anywhere in the text.
unfoldable pub anywhere : Matcher → Matcher
anywhere m before [] = m before []
anywhere m before (c ∷ s) = m before (c ∷ s) || anywhere m (is_word c) s

-- `regexp.MatchString`
unfoldable pub match_string : Matcher → Text → Bool
unfolding anywhere
match_string m s = anywhere m false s

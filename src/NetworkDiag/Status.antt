-- ===== src/NetworkDiag/Status.antt =====
-- StripExitMarker of internal/networkdiag/commands.go on what the script of BuildCommand prints.
use mathlib.Core.List.{append-nil}
use myapptest.Common.{
  ℕ, suc, ◌<◌, ℤ, pos, Bool, true, false, none, some, List, [], ◌∷◌, ◌++◌, Text, codes, ◌≡◌, refl,
  sym, ap, ◌∙◌, inl, inr, arith, trim_right_of, Option-cases, IsWord, trim_space, decimal, IsDigits,
  digits-IsDigits, is_space, is_digit, atoi, atoi-decimal, nat_beq, map, split_on, put_first,
  is_empty, if◌then◌else◌, trim_space-IsWord, IsWord-any,
}
use myapptest.NetworkDiag.Script.{exit_marker}
use myapptest.NetworkDiag.Output.{
  parse_marker, parse_exit_marker_line, strip_lines, strip_exit_marker,
}
use myapptest.NetworkDiag.Lines.{lines_of, crlf, lines_of-crlf, lines_of-append, lines_of-empty}

strip_lines-marker :
    (code n : ℤ) (line : Text) (lines : List Text)
    → parse_exit_marker_line line ≡ some n
    → strip_lines code (line ∷ lines) ≡ strip_lines n lines
unfolding strip_lines
strip_lines-marker code n line lines h = ground (arith, h)

strip_lines-plain :
    (code : ℤ) (line : Text) (lines : List Text)
    → parse_exit_marker_line line ≡ none
    → strip_lines code (line ∷ lines) ≡ (
      if is_empty (trim_space line)
          then (strip_lines code lines).0
          else (line ∷ (strip_lines code lines).0),
      (strip_lines code lines).1,
    )
unfolding strip_lines
strip_lines-plain code line lines h = ground (arith, h)

append-if :
    (b : Bool) (line : Text) (kept more : List Text)
    → (if b then kept ++ more else (line ∷ (kept ++ more)))
      ≡ (if b then kept else (line ∷ kept)) ++ more
append-if true line kept more = refl
append-if false line kept more = refl

strip_lines-append :
    (code : ℤ) (a b : List Text)
    → strip_lines code (a ++ b) ≡ (
      (strip_lines code a).0 ++ (strip_lines (strip_lines code a).1 b).0,
      (strip_lines (strip_lines code a).1 b).1,
    )
unfolding strip_lines
strip_lines-append code [] b = refl
strip_lines-append code (line ∷ a) b = elim (Option-cases (parse_exit_marker_line line)) [
  | inl h ↦
      let kept = (strip_lines code a).0 in
      let (more, code2) = strip_lines (strip_lines code a).1 b in
      rw
        (
          strip_lines-plain code line (a ++ b) h,
          strip_lines-plain code line a h,
          strip_lines-append code a b,
        )
        (ap (λ (lines : List Text). (lines, code2))
          (append-if (is_empty (trim_space line)) line kept more))
  | inr (n, h) ↦
      rw
        (
          strip_lines-marker code n line (a ++ b) h,
          strip_lines-marker code n line a h,
          strip_lines-append n a b,
        )
        refl
]

digit-IsWord : (c : ℕ) → is_digit c ≡ true → is_space c ≡ false
unfolding is_space
digit-IsWord c h = ground arith

IsDigits-IsWord : (s : Text) → IsDigits s → IsWord s
IsDigits-IsWord [] h = tt
IsDigits-IsWord (c ∷ s) (h, hs) = (digit-IsWord c h, IsDigits-IsWord s hs)

decimal-IsDigits : (n : ℕ) → IsDigits (decimal (pos n))
unfolding decimal
decimal-IsDigits n = digits-IsDigits (suc n) n

-- A text without carriage returns keeps its end.
trim_right_of-IsWord : (s : Text) → IsWord s → trim_right_of (codes "\r") s ≡ s
unfolding trim_right_of is_space
trim_right_of-IsWord [] w = refl
trim_right_of-IsWord (c ∷ []) (n, w) = ground arith
trim_right_of-IsWord (c ∷ d ∷ s) (n, w) = rw (trim_right_of-IsWord (d ∷ s) w) refl

IsWord-append : (s t : Text) → IsWord s → IsWord t → IsWord (s ++ t)
IsWord-append [] t a b = b
IsWord-append (c ∷ s) t (n, a) b = (n, IsWord-append s t a b)

marker-IsWord : IsWord exit_marker
unfolding is_space
marker-IsWord = IsWord-any exit_marker refl

parse_marker-append :
    (s : Text) (n : ℤ)
    → trim_space s ≡ s
    → atoi s ≡ some n
    → parse_marker (exit_marker ++ s) ≡ some n
unfolding parse_marker
parse_marker-append s n e a = rw (e, a) refl

parse_exit_marker_line-decimal :
    (n : ℕ)
    → n < 9223372036854775808
    → parse_exit_marker_line (exit_marker ++ decimal (pos n)) ≡ some (pos n)
unfolding parse_exit_marker_line
parse_exit_marker_line-decimal n h =
    let d = IsDigits-IsWord (decimal (pos n)) (decimal-IsDigits n) in
    let w = IsWord-append exit_marker (decimal (pos n)) marker-IsWord d in
    ap parse_marker (
      ap trim_space (trim_right_of-IsWord (exit_marker ++ decimal (pos n)) w)
      ∙ trim_space-IsWord (exit_marker ++ decimal (pos n)) w)
    ∙ parse_marker-append (decimal (pos n)) (pos n) (trim_space-IsWord (decimal (pos n)) d)
        (atoi-decimal n h)

word-newline : (c : ℕ) → is_space c ≡ false → nat_beq c b'\n' ≡ false
unfolding is_space
word-newline c h = ground arith

split_on-IsWord : (s : Text) → IsWord s → split_on b'\n' s ≡ s ∷ []
unfolding split_on put_first
split_on-IsWord [] w = refl
split_on-IsWord (c ∷ s) (n, w) = rw (word-newline c n, split_on-IsWord s w) refl

-- A word is one line.
lines_of-IsWord : (s : Text) → IsWord s → lines_of s ≡ s ∷ []
unfolding lines_of trim_right_of
lines_of-IsWord s w =
    ap (map (trim_right_of (codes "\r"))) (split_on-IsWord s w)
    ∙ ap (λ (line : Text). line ∷ []) (trim_right_of-IsWord s w)

strip_exit_marker-lines :
    (output : Text) → strip_exit_marker output ≡ strip_lines (pos 0) (lines_of output)
unfolding strip_exit_marker lines_of crlf
strip_exit_marker-lines output = ap (strip_lines (pos 0)) (lines_of-crlf output)

last-strip_lines :
    (code : ℤ) (status : ℕ)
    → status < 9223372036854775808
    → strip_lines code (lines_of (exit_marker ++ decimal (pos status) ++ b'\n' ∷ []))
      ≡ ([], pos status)
unfolding strip_lines
last-strip_lines code status h =
    let line = exit_marker ++ decimal (pos status) in
    let w =
      IsWord-append exit_marker (decimal (pos status)) marker-IsWord
        (IsDigits-IsWord (decimal (pos status)) (decimal-IsDigits status)) in
    ap (strip_lines code)
      (lines_of-append line [] ∙ ap (λ ls. ls ++ lines_of []) (lines_of-IsWord line w))
    ∙ strip_lines-marker code (pos status) line (lines_of [])
        (parse_exit_marker_line-decimal status h)
    ∙ ap (strip_lines (pos status)) lines_of-empty

-- When the script ends, its output is what the tool printed, a newline, and a line with the marker
-- and the status. Whatever the tool printed, StripExitMarker returns that status, if it is an int,
-- and the lines that it returns for what the tool printed alone.
pub strip_exit_marker-status :
    (printed : Text) (status : ℕ)
    → status < 9223372036854775808
    → strip_exit_marker (printed ++ b'\n' ∷ (exit_marker ++ decimal (pos status) ++ b'\n' ∷ []))
      ≡ ((strip_exit_marker printed).0, pos status)
strip_exit_marker-status printed status h =
    strip_exit_marker-lines (printed ++ b'\n' ∷ (exit_marker ++ decimal (pos status) ++ b'\n' ∷ []))
    ∙ ap (strip_lines (pos 0))
        (lines_of-append printed (exit_marker ++ decimal (pos status) ++ b'\n' ∷ []))
    ∙ strip_lines-append (pos 0) (lines_of printed)
        (lines_of (exit_marker ++ decimal (pos status) ++ b'\n' ∷ []))
    ∙ ap
        (λ ((rest, code) : List Text × ℤ).
          ((strip_lines (pos 0) (lines_of printed)).0 ++ rest, code))
        (last-strip_lines (strip_lines (pos 0) (lines_of printed)).1 status h)
    ∙ ap (λ (lines : List Text). (lines, pos status))
        (append-nil (strip_lines (pos 0) (lines_of printed)).0)
    ∙ ap (λ ((lines, _) : List Text × ℤ). (lines, pos status))
        (sym (strip_exit_marker-lines printed))

-- ===== src/NetworkDiag/Lines.antt =====
-- What strip_exit_marker sees of an output: its lines, whatever ends them.
use myapptest.Common.{
  ℕ, true, false, List, [], ◌∷◌, ◌++◌, Text, codes, ◌≡◌, refl, sym, ap, ◌∙◌, inl, inr, arith,
  trim_right_of, has_prefix, replace_all, replace_from, split_on, map, nat_beq, nat_beq_iff,
  Bool-cases, put_first,
}

-- The lines, without the carriage returns at their ends.
unfoldable pub lines_of : Text → List Text
unfolding trim_right_of split_on
lines_of s = map (trim_right_of (codes "\r")) (split_on b'\n' s)

-- What a code point does before the lines that follow it.
abbrev pub before : ℕ → List Text → List Text
before c [] = trim_right_of (codes "\r") (c ∷ []) ∷ []
before c (line ∷ lines) = trim_right_of (codes "\r") (c ∷ line) ∷ lines

trim_right_of-step :
    (set : Text) (c : ℕ) (s : Text)
    → trim_right_of set (c ∷ s) ≡ trim_right_of set (c ∷ trim_right_of set s)
unfolding trim_right_of
trim_right_of-step set c [] = refl
trim_right_of-step set c (d ∷ s) = ground (arith, trim_right_of-step set d s)

pub lines_of-empty : lines_of [] ≡ [] ∷ []
unfolding lines_of trim_right_of split_on
lines_of-empty = refl

lines_of-newline : (s : Text) → lines_of (b'\n' ∷ s) ≡ [] ∷ lines_of s
unfolding lines_of trim_right_of split_on
lines_of-newline s = refl

before-map :
    (c : ℕ) (parts : List Text)
    → map (trim_right_of (codes "\r")) (put_first c parts)
      ≡ before c (map (trim_right_of (codes "\r")) parts)
unfolding put_first
before-map c [] = refl
before-map c (part ∷ parts) =
    ap (λ (line : Text). line ∷ map (trim_right_of (codes "\r")) parts)
      (trim_right_of-step (codes "\r") c part)

pub lines_of-other :
    (c : ℕ) (s : Text) → nat_beq c b'\n' ≡ false → lines_of (c ∷ s) ≡ before c (lines_of s)
unfolding lines_of split_on
lines_of-other c s h =
    ap (map (trim_right_of (codes "\r"))) (ground (arith, h)) ∙ before-map c (split_on b'\n' s)

lines_of-cons : (c : ℕ) (s t : Text) → lines_of s ≡ lines_of t → lines_of (c ∷ s) ≡ lines_of (c ∷ t)
lines_of-cons c s t e = elim (Bool-cases (nat_beq c b'\n')) [
  | inl h ↦ rw ((nat_beq_iff c b'\n').0 h, lines_of-newline s, lines_of-newline t, e) refl
  | inr h ↦ rw (lines_of-other c s h, lines_of-other c t h, e) refl
]

lines_of-some : (s : Text) → (line : Text) × (lines : List Text) × (lines_of s ≡ line ∷ lines)
lines_of-some [] = ([], [], lines_of-empty)
lines_of-some (c ∷ s) =
    let (line, lines, e) = lines_of-some s in
    elim (Bool-cases (nat_beq c b'\n')) [
      | inl h ↦ (
        [],
        lines_of s,
        ap (λ d. lines_of (d ∷ s)) ((nat_beq_iff c b'\n').0 h) ∙ lines_of-newline s,
      )
      | inr h ↦
          (trim_right_of (codes "\r") (c ∷ line), lines, lines_of-other c s h ∙ ap (before c) e)
    ]

unfoldable pub crlf : Text → Text
unfolding replace_all
crlf s = replace_all (codes "\r\n") (codes "\n") s

crlf-pair : (s : Text) → crlf (b'\r' ∷ b'\n' ∷ s) ≡ b'\n' ∷ crlf s
unfolding crlf replace_from has_prefix
crlf-pair s = refl

crlf-other :
    (c : ℕ) (s : Text) → has_prefix (codes "\r\n") (c ∷ s) ≡ false → crlf (c ∷ s) ≡ c ∷ crlf s
unfolding crlf replace_from has_prefix
crlf-other c s h = ground (arith, h)

crlf-prefix :
    (c d : ℕ) (s : Text) → has_prefix (codes "\r\n") (c ∷ d ∷ s) ≡ true → (c ≡ b'\r') × (d ≡ b'\n')
unfolding has_prefix
crlf-prefix c d s h = ground arith

crlf-single : (c : ℕ) → has_prefix (codes "\r\n") (c ∷ []) ≡ false
unfolding has_prefix
crlf-single c = ground arith

-- A carriage return before a newline makes no difference to the lines.
pub lines_of-crlf : (s : Text) → lines_of (crlf s) ≡ lines_of s
unfolding crlf replace_from trim_right_of
lines_of-crlf [] = refl
lines_of-crlf (c ∷ []) = ap lines_of (crlf-other c [] (crlf-single c))
lines_of-crlf (c ∷ d ∷ s) = elim (Bool-cases (has_prefix (codes "\r\n") (c ∷ d ∷ s))) [
  | inl h ↦
      let (p, q) = crlf-prefix c d s h in
      rw
        (
          p,
          q,
          crlf-pair s,
          lines_of-newline (crlf s),
          lines_of-other b'\r' (b'\n' ∷ s) refl,
          lines_of-newline s,
          lines_of-crlf s,
        )
        refl
  | inr h ↦
      ap lines_of (crlf-other c (d ∷ s) h)
      ∙ lines_of-cons c (crlf (d ∷ s)) (d ∷ s) (lines_of-crlf (d ∷ s))
]

before-append :
    (c : ℕ) (s : Text) (more : List Text)
    → before c (lines_of s ++ more) ≡ before c (lines_of s) ++ more
before-append c s more = let (line, lines, e) = lines_of-some s in rw e refl

-- The lines before and after a newline.
pub lines_of-append : (s t : Text) → lines_of (s ++ b'\n' ∷ t) ≡ lines_of s ++ lines_of t
lines_of-append [] t = lines_of-newline t ∙ ap (λ ls. ls ++ lines_of t) (sym lines_of-empty)
lines_of-append (c ∷ s) t = elim (Bool-cases (nat_beq c b'\n')) [
  | inl h ↦
      rw
        (
          (nat_beq_iff c b'\n').0 h,
          lines_of-newline (s ++ b'\n' ∷ t),
          lines_of-newline s,
          lines_of-append s t,
        )
        refl
  | inr h ↦
      rw (lines_of-other c (s ++ b'\n' ∷ t) h, lines_of-other c s h, lines_of-append s t)
        (before-append c s (lines_of t))
]

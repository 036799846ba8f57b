-- ===== src/NetworkDiag/Quote.antt =====
-- ShellQuote of internal/networkdiag/commands.go, against the rules of a POSIX shell for a word.
use mathlib.Core.List.{append_assoc}
use myapptest.Common.{
  ℕ, zero, Bool, true, false, Option, none, some, [], ◌∷◌, ◌++◌, Text, replace_all, replace_from,
  has_prefix, codes, nat_beq, any, ◌||◌, sym, ap, nat_beq_iff, nat_beq_comm, ◌≡◌, refl, ◌∙◌, arith,
  Bool-cases, inl, inr,
}

unfoldable pub shell_quote : Text → Text
unfolding replace_all
shell_quote value = codes "'" ++ replace_all (codes "'") (codes "'\\''") value ++ codes "'"

-- What ends a word of a shell.
abbrev pub is_delimiter : ℕ → Bool
is_delimiter c = any (nat_beq c) (codes " \t\n;&|<>()")

-- What makes a shell expand a word.
abbrev pub is_expansion : ℕ → Bool
is_expansion c = any (nat_beq c) (codes "$`\"*?[#~{")

grow : ℕ → Option (Text × Text) → Option (Text × Text)
grow c none = none
grow c (some (word, rest)) = some (c ∷ word, rest)

-- The first word of a text as a POSIX shell reads it, with what follows it: `quoted` between single
-- quotes. A word that is expanded, and one whose quote does not end, is none.
unfoldable pub read_word : (quoted : Bool) → Text → Option (Text × Text)
unfolding grow
read_word true [] = none
read_word false [] = some ([], [])
read_word true (c ∷ s) = elim (nat_beq c b'\'') [
  | true ↦ read_word false s
  | false ↦ grow c (read_word true s)
]
read_word false (c ∷ []) = elim (nat_beq c b'\'' || nat_beq c b'\\' || is_expansion c) [
  | true ↦ none
  | false ↦ elim (is_delimiter c) [ true ↦ some ([], c ∷ []) | false ↦ some (c ∷ [], []) ]
]
read_word false (c ∷ d ∷ s) = elim (nat_beq c b'\'') [
  | true ↦ read_word true (d ∷ s)
  | false ↦ elim (nat_beq c b'\\') [
    | true ↦ grow d (read_word false s)
    | false ↦ elim (is_expansion c) [
      | true ↦ none
      | false ↦ elim (is_delimiter c) [
        | true ↦ some ([], c ∷ d ∷ s)
        | false ↦ grow c (read_word false (d ∷ s))
      ]
    ]
  ]
]

-- What the quotes of `shell_quote` hold.
escaped : Text → Text
unfolding replace_from
escaped value = replace_from zero (codes "'") (codes "'\\''") value

escaped-quote : (value : Text) → escaped (b'\'' ∷ value) ≡ codes "'\\''" ++ escaped value
unfolding escaped replace_from has_prefix
escaped-quote value = refl

escaped-other :
    (c : ℕ) (value : Text) → nat_beq b'\'' c ≡ false → escaped (c ∷ value) ≡ c ∷ escaped value
unfolding escaped replace_from has_prefix
escaped-other c value h = ground (arith, h)

read_word-open : (s : Text) → read_word false (b'\'' ∷ s) ≡ read_word true s
unfolding read_word
read_word-open [] = refl
read_word-open (c ∷ s) = refl

read_word-other :
    (c : ℕ) (s : Text)
    → nat_beq b'\'' c ≡ false
    → read_word true (c ∷ s) ≡ grow c (read_word true s)
unfolding read_word
read_word-other c s h = ground (arith, h, nat_beq_comm c b'\'')

read_word-reopen : (s : Text) → read_word true (codes "'\\''" ++ s) ≡ grow b'\'' (read_word true s)
unfolding read_word
read_word-reopen s = ap (grow b'\'') (read_word-open s)

read_word-end :
    (rest : Text) → read_word true (escaped [] ++ b'\'' ∷ b'\n' ∷ rest) ≡ some ([], b'\n' ∷ rest)
unfolding escaped replace_from read_word
read_word-end [] = refl
read_word-end (c ∷ rest) = refl

-- Read inside the quotes, an escaped text gives itself, up to the quote that ends it.
read_word-escaped :
    (value rest : Text)
    → read_word true (escaped value ++ b'\'' ∷ b'\n' ∷ rest) ≡ some (value, b'\n' ∷ rest)
unfolding grow
read_word-escaped [] rest = read_word-end rest
read_word-escaped (c ∷ value) rest = elim (Bool-cases (nat_beq b'\'' c)) [
  | inl h ↦
      let same = sym ((nat_beq_iff b'\'' c).0 h) in
      rw
        (
          same,
          escaped-quote value,
          read_word-reopen (escaped value ++ b'\'' ∷ b'\n' ∷ rest),
          read_word-escaped value rest,
        )
        refl
  | inr h ↦
      rw
        (
          escaped-other c value h,
          read_word-other c (escaped value ++ b'\'' ∷ b'\n' ∷ rest) h,
          read_word-escaped value rest,
        )
        refl
]

shell_quote-append :
    (value rest : Text) → shell_quote value ++ rest ≡ b'\'' ∷ (escaped value ++ b'\'' ∷ rest)
unfolding shell_quote replace_all escaped
shell_quote-append value rest =
    ap (λ (t : Text). b'\'' ∷ t) (append_assoc (escaped value) (codes "'") rest)

-- A POSIX shell reads what ShellQuote makes of any value as one word, which is that value.
pub read_word-shell_quote :
    (value rest : Text)
    → read_word false (shell_quote value ++ b'\n' ∷ rest) ≡ some (value, b'\n' ∷ rest)
read_word-shell_quote value rest =
    ap (read_word false) (shell_quote-append value (b'\n' ∷ rest))
    ∙ read_word-open (escaped value ++ b'\'' ∷ b'\n' ∷ rest)
    ∙ read_word-escaped value rest

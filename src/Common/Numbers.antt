-- ===== src/Common/Numbers.antt =====
-- Numbers read from texts: `strconv.Atoi`, and that it reads what `decimal` writes.
use Prim.Native.Nat.{ℕ, zero, suc, ◌+◌, ◌-◌, ◌*◌, ◌/◌, ◌%◌, ◌≤◌, ◌<◌}
use mathlib.Core.Path.{◌≡◌, refl, sym, ◌∙◌, ap, subst}
use mathlib.Core.Logic.{inl, inr}
use mathlib.Core.Bool.{Bool, true, ◌&&◌}
use mathlib.Core.Option
use mathlib.Core.Option.{Option, none, some}
use mathlib.Core.List.{[], ◌∷◌, ◌++◌, append_assoc, append-nil}
use native.Mathlib.Omega.{arith}
use myapptest.Common.Tests.{leb, nat_beq, if◌then◌else◌, le-or-lt}
use myapptest.Common.Lists.{All, All-append}
use myapptest.Common.Int.{ℤ, pos, negsuc}
use myapptest.Common.Texts.{Text, digits, decimal}

abbrev pub is_digit : ℕ → Bool
is_digit c = leb b'0' c && leb c b'9'

-- The value of decimal digits after those that have the value `acc`.
unfoldable pub read_digits : (acc : ℕ) → Text → Option ℕ
read_digits acc [] = some acc
read_digits acc (c ∷ s) =
    let rest = read_digits (acc * 10 + (c - b'0')) s in if is_digit c then rest else none

-- The digits of a number whose sign was read, below the limit.
unfoldable pub unsigned : (limit : ℕ) → Text → Option ℕ
unfolding read_digits
unsigned limit [] = none
unsigned limit (c ∷ s) = elim (read_digits 0 (c ∷ s)) [
  | none ↦ none
  | some n ↦ if leb n limit then some n else none
]

negated : ℕ → ℤ
negated zero = pos 0
negated (suc n) = negsuc n

-- `strconv.Atoi`, where an int has 64 bits; none is an error.
unfoldable pub atoi : Text → Option ℤ
unfolding unsigned negated
atoi [] = none
atoi (c ∷ s) =
    if nat_beq c b'-'
    then Option.map negated (unsigned 9223372036854775808 s)
    else if nat_beq c b'+'
    then Option.map pos (unsigned 9223372036854775807 s)
    else Option.map pos (unsigned 9223372036854775807 (c ∷ s))

abbrev pub IsDigits : Text → Type 0
IsDigits s = All (λ (c : ℕ). is_digit c ≡ true) s

digits-long :
    (fuel n : ℕ) → 10 ≤ n → digits (suc fuel) n ≡ digits fuel (n / 10) ++ (b'0' + n % 10) ∷ []
unfolding digits
digits-long fuel n h = ground arith

digits-short : (fuel n : ℕ) → n < 10 → digits (suc fuel) n ≡ (b'0' + n) ∷ []
unfolding digits
digits-short fuel n h = ground arith

is_digit-below : (n : ℕ) → n < 10 → is_digit (b'0' + n) ≡ true
is_digit-below n h = ground arith

pub digits-IsDigits : (fuel n : ℕ) → IsDigits (digits fuel n)
unfolding digits
digits-IsDigits zero n = tt
digits-IsDigits (suc fuel) n = elim (le-or-lt 10 n) [
  | inl h ↦ subst IsDigits (sym (digits-long fuel n h)) (
      All-append _ (digits fuel (n / 10)) ((b'0' + n % 10) ∷ []) (digits-IsDigits fuel (n / 10))
        (is_digit-below (n % 10) (omega arith), tt))
  | inr h ↦ subst IsDigits (sym (digits-short fuel n h)) (is_digit-below n h, tt)
]

read_digits-digit :
    (acc d : ℕ) (s : Text)
    → d < 10
    → read_digits acc ((b'0' + d) ∷ s) ≡ read_digits (acc * 10 + d) s
unfolding read_digits
read_digits-digit acc d s h =
    rw (is_digit-below d h) (ap (λ e. read_digits (acc * 10 + e) s) (omega arith))

read_digits-digits :
    (fuel n : ℕ) (s : Text) → n < fuel → read_digits 0 (digits fuel n ++ s) ≡ read_digits n s
read_digits-digits zero n s h = absurd (omega arith)
read_digits-digits (suc fuel) n s h = elim (le-or-lt 10 n) [
  | inl g ↦
      rw
        (
          digits-long fuel n g,
          append_assoc (digits fuel (n / 10)) ((b'0' + n % 10) ∷ []) s,
          read_digits-digits fuel (n / 10) ((b'0' + n % 10) ∷ s) (omega arith),
          read_digits-digit (n / 10) (n % 10) s (omega arith),
        )
        (ap (λ a. read_digits a s) (omega arith))
  | inr g ↦
      rw (digits-short fuel n g, read_digits-digit 0 n s g)
        (ap (λ a. read_digits a s) (omega arith))
]

-- The text of a number begins with a digit.
digits-begin :
    (fuel n : ℕ) → (c : ℕ) × (s : Text) × (digits (suc fuel) n ≡ c ∷ s) × (is_digit c ≡ true)
unfolding digits
digits-begin zero n = elim (le-or-lt 10 n) [
  | inl h ↦ (b'0' + n % 10, [], digits-long 0 n h, is_digit-below (n % 10) (omega arith))
  | inr h ↦ (b'0' + n, [], digits-short 0 n h, is_digit-below n h)
]
digits-begin (suc fuel) n = elim (le-or-lt 10 n) [
  | inl h ↦
      let (c, s, e, d) = digits-begin fuel (n / 10) in
      (c, s ++ (b'0' + n % 10) ∷ [], rw (digits-long (suc fuel) n h, e) refl, d)
  | inr h ↦ (b'0' + n, [], digits-short (suc fuel) n h, is_digit-below n h)
]

atoi-digit :
    (c n : ℕ) (s : Text)
    → is_digit c ≡ true
    → read_digits 0 (c ∷ s) ≡ some n
    → n < 9223372036854775808
    → atoi (c ∷ s) ≡ some (pos n)
unfolding atoi unsigned
atoi-digit c n s d r h = ground (arith, r)

-- `strconv.Atoi` reads back the text that `strconv.Itoa` writes.
pub atoi-decimal : (n : ℕ) → n < 9223372036854775808 → atoi (decimal (pos n)) ≡ some (pos n)
unfolding decimal read_digits
atoi-decimal n h =
    let (c, s, e, d) = digits-begin n n in
    let r = read_digits-digits (suc n) n [] (omega arith) in
    rw e
      (atoi-digit c n s d (ap (read_digits 0) (sym e ∙ sym (append-nil (digits (suc n) n))) ∙ r) h)

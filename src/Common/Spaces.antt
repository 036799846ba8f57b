-- ===== src/Common/Spaces.antt =====
-- What `trim_space` leaves of a text.
use Prim.Native.Nat.{ℕ}
use mathlib.Core.Path.{◌≡◌, refl, sym, ap, ◌∙◌}
use mathlib.Core.Logic.{◌↔◌, ◌⊎◌, inl, inr}
use mathlib.Core.Bool.{true, false, false≢true}
use mathlib.Core.List.{[], ◌∷◌, ◌++◌}
use native.Mathlib.Omega.{arith}
use myapptest.Common.Tests.{Bool-cases}
use myapptest.Common.Lists.{All, any}
use myapptest.Common.Texts.{Text, is_space, trim_left, trim_right, trim_space, is_empty}

abbrev pub IsBlank : Text → Type 0
IsBlank s = All (λ (c : ℕ). is_space c ≡ true) s

trim_left-space : (c : ℕ) (s : Text) → is_space c ≡ true → trim_left (c ∷ s) ≡ trim_left s
unfolding trim_left
trim_left-space c s h = rw h refl

pub trim_left-word : (c : ℕ) (s : Text) → is_space c ≡ false → trim_left (c ∷ s) ≡ c ∷ s
unfolding trim_left
trim_left-word c s h = rw h refl

pub trim_right-word :
    (c : ℕ) (s : Text) → is_space c ≡ false → trim_right (c ∷ s) ≡ c ∷ trim_right s
unfolding trim_right
trim_right-word c s h = ground (arith, h)

pub trim_right_idem : (s : Text) → trim_right (trim_right s) ≡ trim_right s
unfolding trim_right
trim_right_idem [] = refl
trim_right_idem (c ∷ s) = ground (arith, trim_right_idem s)

-- Nothing is left of a blank text; of any other, a text that begins with no space.
trim_left-cases :
    (s : Text)
    → ((trim_left s ≡ []) × IsBlank s)
      ⊎ ((c : ℕ) × (t : Text) × (trim_left s ≡ c ∷ t) × (is_space c ≡ false) × ¬ IsBlank s)
unfolding trim_left
trim_left-cases [] = inl (refl, tt)
trim_left-cases (c ∷ s) = elim (Bool-cases (is_space c)) [
  | inl h ↦ elim (trim_left-cases s) [
    | inl (e, b) ↦ inl (trim_left-space c s h ∙ e, (h, b))
    | inr (d, t, e, n, b) ↦ inr (d, t, trim_left-space c s h ∙ e, n, λ (x, y). b y)
  ]
  | inr h ↦ inr (c, s, trim_left-word c s h, h, λ (x, y). false≢true (sym h ∙ x))
]

pub trim_space-blank : (s : Text) → IsBlank s → trim_space s ≡ []
unfolding trim_space
trim_space-blank s b = elim (trim_left-cases s) [
  | inl (e, _) ↦ rw e refl
  | inr (d, t, e, n, b') ↦ absurd (b' b)
]

pub trim_space-empty : (s : Text) → (is_empty (trim_space s) ≡ true) ↔ IsBlank s
unfolding trim_space
trim_space-empty s = elim (trim_left-cases s) [
  | inl (e, b) ↦ (λ h. b, λ b. rw e refl)
  | inr (d, t, e, n, b) ↦
      (rw (e, trim_right-word d t n) (λ h. absurd (false≢true h)), λ h. absurd (b h))
]

pub trim_space_idem : (s : Text) → trim_space (trim_space s) ≡ trim_space s
unfolding trim_space
trim_space_idem s = elim (trim_left-cases s) [
  | inl (e, b) ↦ rw e refl
  | inr (d, t, e, n, b) ↦
      rw
        (
          e,
          trim_right-word d t n,
          trim_left-word d (trim_right t) n,
          trim_right-word d (trim_right t) n,
          trim_right_idem t,
        )
        refl
]

-- What is left is empty or begins with no space.
pub trim_space-cases :
    (s : Text)
    → (trim_space s ≡ []) ⊎ ((c : ℕ) × (t : Text) × (trim_space s ≡ c ∷ t) × (is_space c ≡ false))
unfolding trim_space
trim_space-cases s = elim (trim_left-cases s) [
  | inl (e, b) ↦ inl (rw e refl)
  | inr (d, t, e, n, b) ↦ inr (d, trim_right t, rw e (trim_right-word d t n), n)
]

abbrev pub IsWord : Text → Type 0
IsWord s = All (λ (c : ℕ). is_space c ≡ false) s

trim_right-IsWord : (s : Text) → IsWord s → trim_right s ≡ s
unfolding trim_right
trim_right-IsWord [] w = refl
trim_right-IsWord (c ∷ s) (n, w) =
    trim_right-word c s n ∙ ap (λ (t : Text). c ∷ t) (trim_right-IsWord s w)

pub trim_space-IsWord : (s : Text) → IsWord s → trim_space s ≡ s
unfolding trim_space
trim_space-IsWord [] w = refl
trim_space-IsWord (c ∷ s) (n, w) = rw (trim_left-word c s n) (trim_right-IsWord (c ∷ s) (n, w))

pub IsWord-any : (s : Text) → any is_space s ≡ false → IsWord s
IsWord-any [] h = tt
IsWord-any (c ∷ s) h = (ground arith, IsWord-any s (ground arith))

trim_right-append :
    (s : Text) (d : ℕ) (t : Text) → IsWord (d ∷ t) → trim_right (s ++ d ∷ t) ≡ s ++ d ∷ t
unfolding trim_right
trim_right-append [] d t w = trim_right-IsWord (d ∷ t) w
trim_right-append (c ∷ []) d t w = rw (trim_right-append [] d t w) refl
trim_right-append (c ∷ b ∷ s) d t w = rw (trim_right-append (b ∷ s) d t w) refl

-- A text that begins with no space and ends with a word is whole without its spaces.
pub trim_space-framed :
    (c : ℕ) (s : Text) (d : ℕ) (t : Text)
    → is_space c ≡ false
    → IsWord (d ∷ t)
    → trim_space (c ∷ s ++ d ∷ t) ≡ c ∷ s ++ d ∷ t
unfolding trim_space
trim_space-framed c s d t n w =
    rw (trim_left-word c (s ++ d ∷ t) n) (trim_right-append (c ∷ s) d t w)

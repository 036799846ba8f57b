-- ===== src/SavedCommands/Normal.antt =====
-- What NormalizeHistoryCommand of internal/domain/commands.go leaves of a command.
use mathlib.Core.Path.{subst}
use myapptest.Common.{
  ℕ, false, [], ◌∷◌, ◌≡◌, refl, sym, ap, ◌∙◌, inl, inr, arith, Text, codes, All, Bool-cases,
  nat_beq, nat_beq_iff, trim_space, trim_space_idem, trim_left, trim_right, List-cases,
  nat_beq_comm, is_space, replace_all, replace_from, has_prefix,
}
use myapptest.SavedCommands.{normalize_history_command}

-- No code point of a text is `d`.
abbrev pub IsWithout : ℕ → Text → Type 0
IsWithout d s = All (λ (c : ℕ). nat_beq c d ≡ false) s

trim_left-IsWithout : (d : ℕ) (s : Text) → IsWithout d s → IsWithout d (trim_left s)
unfolding trim_left
trim_left-IsWithout d [] h = tt
trim_left-IsWithout d (c ∷ s) (n, h) = elim (Bool-cases (is_space c)) [
  | inl g ↦ rw g (trim_left-IsWithout d s h)
  | inr g ↦ rw g (n, h)
]

trim_right-IsWithout : (d : ℕ) (s : Text) → IsWithout d s → IsWithout d (trim_right s)
unfolding trim_right
trim_right-IsWithout d [] h = tt
trim_right-IsWithout d (c ∷ s) (n, h) = elim (List-cases (trim_right s)) [
  | inl e ↦ elim (Bool-cases (is_space c)) [ inl g ↦ rw (e, g) tt | inr g ↦ rw (e, g) (n, tt) ]
  | inr (x, xs, e) ↦ rw e (n, subst (IsWithout d) e (trim_right-IsWithout d s h))
]

trim_space-IsWithout : (d : ℕ) (s : Text) → IsWithout d s → IsWithout d (trim_space s)
unfolding trim_space
trim_space-IsWithout d s h = trim_right-IsWithout d (trim_left s) (trim_left-IsWithout d s h)

replace_all-return :
    (s : Text)
    → replace_all (codes "\r") (codes "\n") (b'\r' ∷ s)
      ≡ b'\n' ∷ replace_all (codes "\r") (codes "\n") s
unfolding replace_all replace_from has_prefix
replace_all-return s = refl

replace_all-other :
    (rest new : Text) (c : ℕ) (s : Text)
    → nat_beq c b'\r' ≡ false
    → replace_all (b'\r' ∷ rest) new (c ∷ s) ≡ c ∷ replace_all (b'\r' ∷ rest) new s
unfolding replace_all replace_from has_prefix
replace_all-other rest new c s n = ground (arith, nat_beq_comm c b'\r')

-- Carriage returns replaced leave none.
replace_all-IsWithout : (s : Text) → IsWithout b'\r' (replace_all (codes "\r") (codes "\n") s)
unfolding replace_all replace_from
replace_all-IsWithout [] = tt
replace_all-IsWithout (c ∷ s) = elim (Bool-cases (nat_beq c b'\r')) [
  | inl g ↦
      subst (IsWithout b'\r')
        (sym (
          ap (λ d. replace_all (codes "\r") (codes "\n") (d ∷ s)) ((nat_beq_iff c b'\r').0 g)
          ∙ replace_all-return s))
        (refl, replace_all-IsWithout s)
  | inr g ↦
      subst (IsWithout b'\r') (sym (replace_all-other [] (codes "\n") c s g))
        (g, replace_all-IsWithout s)
]

-- Where there is no carriage return, nothing is replaced.
replace_all-same : (rest new s : Text) → IsWithout b'\r' s → replace_all (b'\r' ∷ rest) new s ≡ s
unfolding replace_all replace_from
replace_all-same rest new [] h = refl
replace_all-same rest new (c ∷ s) (n, h) =
    replace_all-other rest new c s n ∙ ap (λ (t : Text). c ∷ t) (replace_all-same rest new s h)

normalize-IsWithout : (command : Text) → IsWithout b'\r' (normalize_history_command command)
unfolding normalize_history_command
normalize-IsWithout command =
    trim_space-IsWithout b'\r' _
      (replace_all-IsWithout (replace_all (codes "\r\n") (codes "\n") command))

-- A command that is normal already is left as it is.
pub normalize_history_command_idem :
    (command : Text)
    → normalize_history_command (normalize_history_command command)
      ≡ normalize_history_command command
unfolding normalize_history_command
normalize_history_command_idem command =
    let normal = normalize_history_command command in
    let w = normalize-IsWithout command in
    ap trim_space (
      ap (replace_all (codes "\r") (codes "\n"))
        (replace_all-same (codes "\n") (codes "\n") normal w)
      ∙ replace_all-same [] (codes "\n") normal w)
    ∙ trim_space_idem
        (replace_all (codes "\r") (codes "\n") (replace_all (codes "\r\n") (codes "\n") command))

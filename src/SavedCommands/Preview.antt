-- ===== src/SavedCommands/Preview.antt =====
-- The preview of a command and whether it has several lines, against the list of its lines that
-- are not blank: BuildCommandPreview and IsMultilineHistoryCommand of internal/domain/commands.go.
use myapptest.Common.{
  ℕ, Bool, true, false, false≢true, List, [], ◌∷◌, ◌++◌, ◌≡◌, refl, sym, ◌∙◌, ◌⊎◌, inl, inr, arith,
  Text, codes, Bool-cases, trim_space, trim_space-empty, IsBlank, is_empty, is_space, if◌then◌else◌,
  not, length, any, keep_if, keep_if-true, keep_if-false, ltb, split_on, join_with, fields,
  fields_from, put_first,
}
use myapptest.SavedCommands.{
  normalize_history_command, build_command_preview, is_multiline_history_command, collapse,
  is_filled, preview_of, second_line,
}

-- The lines of a command that are not blank.
unfoldable pub filled_lines : Text → List Text
unfolding split_on normalize_history_command is_filled
filled_lines command = keep_if is_filled (split_on b'\n' (normalize_history_command command))

-- The first line, with a mark that others follow.
unfoldable pub summary : List Text → Text
unfolding collapse
summary [] = []
summary (line ∷ []) = collapse line
summary (line ∷ next ∷ lines) = collapse line ++ codes " ..."

put_first-some :
    (c : ℕ) (parts : List Text) → (w : Text) × (ws : List Text) × (put_first c parts ≡ (c ∷ w) ∷ ws)
unfolding put_first
put_first-some c [] = ([], [], refl)
put_first-some c (part ∷ parts) = (part, parts, refl)

fields_from-space :
    (c : ℕ) (s : Text) → is_space c ≡ true → fields_from false (c ∷ s) ≡ fields_from false s
unfolding fields_from
fields_from-space c s h = rw h refl

fields_from-word :
    (going_on : Bool) (c : ℕ) (s : Text)
    → is_space c ≡ false
    → fields_from going_on (c ∷ s) ≡ put_first c (fields_from true s)
unfolding fields_from
fields_from-word going_on c s h = rw h refl

fields-cases :
    (s : Text)
    → ((fields_from false s ≡ []) × IsBlank s)
      ⊎ ((c : ℕ) × (w : Text) × (ws : List Text) × (fields_from false s ≡ (c ∷ w) ∷ ws)
          × ¬ IsBlank s)
unfolding fields_from
fields-cases [] = inl (refl, tt)
fields-cases (c ∷ s) = elim (Bool-cases (is_space c)) [
  | inl h ↦ elim (fields-cases s) [
    | inl (e, b) ↦ inl (fields_from-space c s h ∙ e, (h, b))
    | inr (d, w, ws, e, b) ↦ inr (d, w, ws, fields_from-space c s h ∙ e, λ (x, y). b y)
  ]
  | inr h ↦
      let (w, ws, e) = put_first-some c (fields_from true s) in
      inr (c, w, ws, fields_from-word false c s h ∙ e, λ (x, y). false≢true (sym h ∙ x))
]

join-some :
    (sep : Text) (c : ℕ) (w : Text) (ws : List Text)
    → is_empty (join_with sep ((c ∷ w) ∷ ws)) ≡ false
unfolding join_with
join-some sep c w [] = refl
join-some sep c w (v ∷ vs) = refl

blank-cases : (line : Text) → ¬ IsBlank line → is_empty (trim_space line) ≡ false
blank-cases line b = elim (Bool-cases (is_empty (trim_space line))) [
  | inl h ↦ absurd (b ((trim_space-empty line).0 h))
  | inr h ↦ h
]

-- A line has no words just if it is blank.
collapse-filled : (line : Text) → is_empty (collapse line) ≡ not (is_filled line)
unfolding collapse fields is_filled
collapse-filled line = elim (fields-cases line) [
  | inl (e, b) ↦ rw (e, (trim_space-empty line).1 b) refl
  | inr (c, w, ws, e, b) ↦ rw (e, join-some (codes " ") c w ws, blank-cases line b) refl
]

any-filled :
    (lines : List Text)
    → ((any is_filled lines ≡ false) × (keep_if is_filled lines ≡ []))
      ⊎ ((line : Text) × (more : List Text) × (any is_filled lines ≡ true)
          × (keep_if is_filled lines ≡ line ∷ more))
any-filled [] = inl (refl, refl)
any-filled (line ∷ lines) = elim (Bool-cases (is_filled line)) [
  | inl h ↦ inr (line, keep_if is_filled lines, rw h refl, keep_if-true is_filled line lines h)
  | inr h ↦ elim (any-filled lines) [
    | inl (a, k) ↦ inl (rw h a, keep_if-false is_filled line lines h ∙ k)
    | inr (l, more, a, k) ↦ inr (l, more, rw h a, keep_if-false is_filled line lines h ∙ k)
  ]
]

preview_of-summary : (lines : List Text) → preview_of lines ≡ summary (keep_if is_filled lines)
unfolding preview_of summary
preview_of-summary [] = refl
preview_of-summary (line ∷ lines) = elim (Bool-cases (is_filled line)) [
  | inl h ↦ elim (any-filled lines) [
    | inl (a, k) ↦ rw (collapse-filled line, h, a, keep_if-true is_filled line lines h, k) refl
    | inr (l, more, a, k) ↦
        rw (collapse-filled line, h, a, keep_if-true is_filled line lines h, k) refl
  ]
  | inr h ↦
      rw (collapse-filled line, h, preview_of-summary lines, keep_if-false is_filled line lines h)
        refl
]

second_line-one : (lines : List Text) → second_line 1 lines ≡ any is_filled lines
unfolding second_line
second_line-one [] = refl
second_line-one (line ∷ lines) = elim (Bool-cases (is_filled line)) [
  | inl h ↦ rw h refl
  | inr h ↦ rw h (second_line-one lines)
]

second_line-zero :
    (lines : List Text) → second_line 0 lines ≡ ltb 1 (length (keep_if is_filled lines))
unfolding second_line
second_line-zero [] = refl
second_line-zero (line ∷ lines) = elim (Bool-cases (is_filled line)) [
  | inl h ↦ elim (any-filled lines) [
    | inl (a, k) ↦ rw (h, second_line-one lines, a, keep_if-true is_filled line lines h, k) refl
    | inr (l, more, a, k) ↦
        rw (h, second_line-one lines, a, keep_if-true is_filled line lines h, k) (ground arith)
  ]
  | inr h ↦ rw (h, keep_if-false is_filled line lines h) (second_line-zero lines)
]

normal-empty :
    (normal : Text)
    → (if is_empty normal then [] else preview_of (split_on b'\n' normal))
      ≡ preview_of (split_on b'\n' normal)
unfolding preview_of collapse fields_from split_on
normal-empty [] = refl
normal-empty (c ∷ s) = refl

-- The preview of a command is its first line with a word, its words one space apart, and then
-- " ..." just if another line has a word. IsMultiline holds just then.
pub preview_lem :
    (command : Text)
    → (build_command_preview command ≡ summary (filled_lines command))
      × (is_multiline_history_command command ≡ ltb 1 (length (filled_lines command)))
unfolding build_command_preview is_multiline_history_command filled_lines
preview_lem command = (
  normal-empty (normalize_history_command command)
      ∙ preview_of-summary (split_on b'\n' (normalize_history_command command)),
  second_line-zero (split_on b'\n' (normalize_history_command command)),
)

-- ===== src/SavedCommands/OneLine.antt =====
-- That the preview of a command is one line: BuildCommandPreview of internal/domain/commands.go.
use myapptest.Common.{
  ℕ, Bool, true, false, List, [], ◌∷◌, ◌++◌, ◌≡◌, refl, sym, inl, inr, arith, Text, codes, All,
  All-append, Bool-cases, nat_beq, IsWord, is_space, join_with, fields, fields_from, put_first,
  if◌then◌else◌,
}
use mathlib.Core.Path.{subst}
use myapptest.SavedCommands.{build_command_preview, collapse}
use myapptest.SavedCommands.Normal.{IsWithout}
use myapptest.SavedCommands.Preview.{summary, filled_lines, preview_lem}

put_first-IsWord :
    (c : ℕ) (parts : List Text)
    → is_space c ≡ false
    → All IsWord parts
    → All IsWord (put_first c parts)
unfolding put_first
put_first-IsWord c [] n h = ((n, tt), tt)
put_first-IsWord c (part ∷ parts) n (w, ws) = ((n, w), ws)

after_space-IsWord :
    (going_on : Bool) (parts : List Text)
    → All IsWord parts
    → All IsWord (if going_on then [] ∷ parts else parts)
after_space-IsWord true parts h = (tt, h)
after_space-IsWord false parts h = h

fields_from-IsWord : (going_on : Bool) (s : Text) → All IsWord (fields_from going_on s)
unfolding fields_from
fields_from-IsWord true [] = (tt, tt)
fields_from-IsWord false [] = tt
fields_from-IsWord going_on (c ∷ s) = elim (Bool-cases (is_space c)) [
  | inl h ↦ rw h (after_space-IsWord going_on (fields_from false s) (fields_from-IsWord false s))
  | inr h ↦ rw h (put_first-IsWord c (fields_from true s) h (fields_from-IsWord true s))
]

word-newline : (c : ℕ) → is_space c ≡ false → nat_beq c b'\n' ≡ false
unfolding is_space
word-newline c h = ground arith

IsWord-IsWithout : (s : Text) → IsWord s → IsWithout b'\n' s
IsWord-IsWithout [] h = tt
IsWord-IsWithout (c ∷ s) (n, h) = (word-newline c n, IsWord-IsWithout s h)

join_with-IsWithout :
    (words : List Text) → All IsWord words → IsWithout b'\n' (join_with (codes " ") words)
unfolding join_with
join_with-IsWithout [] h = tt
join_with-IsWithout (w ∷ []) (h, _) = IsWord-IsWithout w h
join_with-IsWithout (w ∷ v ∷ vs) (h, hs) =
    All-append _ (w ++ codes " ") (join_with (codes " ") (v ∷ vs))
      (All-append _ w (codes " ") (IsWord-IsWithout w h) (refl, tt))
      (join_with-IsWithout (v ∷ vs) hs)

collapse-IsWithout : (line : Text) → IsWithout b'\n' (collapse line)
unfolding collapse fields
collapse-IsWithout line =
    join_with-IsWithout (fields_from false line) (fields_from-IsWord false line)

summary-IsWithout : (lines : List Text) → IsWithout b'\n' (summary lines)
unfolding summary
summary-IsWithout [] = tt
summary-IsWithout (line ∷ []) = collapse-IsWithout line
summary-IsWithout (line ∷ next ∷ lines) =
    All-append _ (collapse line) (codes " ...") (collapse-IsWithout line)
      (refl, (refl, (refl, (refl, tt))))

-- The preview of any command is one line: no newline is in it.
pub build_command_preview-IsWithout :
    (command : Text) → IsWithout b'\n' (build_command_preview command)
build_command_preview-IsWithout command =
    subst (IsWithout b'\n') (sym (preview_lem command).0) (summary-IsWithout (filled_lines command))

-- ===== src/BatchCommand/Interactive.antt =====
-- `IsInteractiveCommand`: the commands that need a terminal.
use myapptest.Common.{
  ℕ, Bool, false, List, [], ◌∷◌, map, ◌&&◌, ◌||◌, not, nat_beq, any, Text, codes, trim_space,
  contains_text, is_empty, to_lower, Matcher, is_blank, fold_case, same_case, matched, at_end,
  boundary, literal, one, many, match_string,
}

-- `[;&|]`
abbrev is_separator : ℕ → Bool
is_separator c = nat_beq c b';' || nat_beq c b'&' || nat_beq c b'|'

-- `(^|[;&|]\s*)` and then a matcher.
at_command : Matcher → Text → Bool
unfolding match_string one many
at_command m s = m false s || match_string (one is_separator (many is_blank m)) s

-- `word\b`
a_word : (ℕ → ℕ) → Text → Matcher
unfolding literal boundary
a_word fold word = literal fold word (boundary matched)

-- `word\s+option\b`
an_option : Text → Text → Matcher
unfolding literal one many a_word
an_option word option =
    literal fold_case word (one is_blank (many is_blank (a_word fold_case option)))

abbrev words : List Text
words =
    codes "vi"
    ∷ codes "vim"
    ∷ codes "nano"
    ∷ codes "emacs"
    ∷ codes "top"
    ∷ codes "htop"
    ∷ codes "less"
    ∷ codes "more"
    ∷ codes "watch"
    ∷ codes "passwd"
    ∷ []

abbrev shells : List Text
shells = codes "bash" ∷ codes "sh" ∷ codes "zsh" ∷ codes "fish" ∷ codes "csh" ∷ codes "tcsh" ∷ []

-- `^\s*(bash|…)\s*$`
is_shell : Text → Bool
unfolding many literal
is_shell s = any (λ w. many is_blank (literal fold_case w (many is_blank at_end)) false s) shells

unfoldable pub is_interactive_command : Text → Bool
unfolding at_command a_word an_option is_shell trim_space to_lower contains_text
is_interactive_command command =
    let normalized = trim_space command in
    let lower = map to_lower normalized in
    not (is_empty normalized)
    && (any (λ w. at_command (a_word fold_case w) normalized) words
        || at_command (an_option (codes "tail") (codes "-f")) normalized
        || at_command (an_option (codes "crontab") (codes "-e")) normalized
        || is_shell normalized
        || (at_command (a_word same_case (codes "sudo")) lower
            && not (contains_text (codes "sudo -n") lower)
            && not (contains_text (codes "sudo --non-interactive") lower)))

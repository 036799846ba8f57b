-- ===== src/SavedCommands/Safety.antt =====
-- CheckCommandSafety of internal/commands/service.go: the commands that are not kept. The regular
-- expressions are matchers.
use myapptest.Common.{
  ℕ, Bool, false, List, [], ◌∷◌, ◌&&◌, ◌||◌, not, ltb, leb, nat_beq, any, length, Text, codes,
  is_empty, fields, join_with, Matcher, is_blank, fold_case, matched, boundary, literal, one, many,
  match_string, if◌then◌else◌,
}
use myapptest.SavedCommands.{normalize_history_command}

abbrev pub max_command_length : ℕ
max_command_length = 32768

-- The reasons, one for each code.
pub data SafetyReason : Type 0 where
  empty too_long control_sequence sensitive : SafetyReason

pub data CommandSafetyResult : Type 0 where
  safe : CommandSafetyResult
  unsafe : SafetyReason → CommandSafetyResult

-- `unicode.IsControl`
abbrev is_control : ℕ → Bool
is_control c = ltb c 32 || (leb 127 c && leb c 159)

unfoldable pub contains_control_sequence : Text → Bool
contains_control_sequence [] = false
contains_control_sequence (r ∷ s) =
    (not (nat_beq r b'\t' || nat_beq r b'\n') && is_control r) || contains_control_sequence s

-- `\bword\s*` and then a sign.
assigned : Text → ℕ → Matcher
unfolding boundary literal many one
assigned word sign = boundary (literal fold_case word (many is_blank (one (nat_beq sign) matched)))

-- `.*`
abbrev rest_of_line : Matcher → Matcher
unfolding many
rest_of_line next = many (λ c. not (nat_beq c b'\n')) next

-- `\S+`
abbrev no_blanks : Matcher → Matcher
unfolding one many
no_blanks next = one (λ c. not (is_blank c)) (many (λ c. not (is_blank c)) next)

-- `\s+`
abbrev blanks : Matcher → Matcher
unfolding one many
blanks next = one is_blank (many is_blank next)

abbrev a_word : Text → Matcher → Matcher
unfolding boundary literal
a_word word next = boundary (literal fold_case word (boundary next))

sensitive_patterns : List Matcher
unfolding assigned rest_of_line no_blanks blanks a_word
sensitive_patterns =
    assigned (codes "password") b'='
    ∷ assigned (codes "passwd") b'='
    ∷ assigned (codes "pass") b'='
    ∷ assigned (codes "token") b'='
    ∷ assigned (codes "secret") b'='
    ∷ assigned (codes "api_key") b'='
    ∷ assigned (codes "apikey") b'='
    ∷ assigned (codes "authorization") b':'
    ∷ literal fold_case (codes "private key") matched
    ∷ boundary (
        literal fold_case (codes "sshpass")
          (blanks (literal fold_case (codes "-p") (boundary matched))))
    ∷ a_word (codes "mysql")
        (rest_of_line (one is_blank (literal fold_case (codes "-p") (no_blanks matched))))
    ∷ a_word (codes "curl") (
        rest_of_line (
          one is_blank (
            literal fold_case (codes "-u")
              (blanks (no_blanks (one (nat_beq b':') (no_blanks matched)))))))
    ∷ []

unfoldable pub looks_sensitive : Text → Bool
unfolding normalize_history_command fields join_with sensitive_patterns match_string
looks_sensitive command =
    let normal = normalize_history_command command in
    let flattened = join_with (codes " ") (fields normal) in
    any (λ pattern. match_string pattern normal || match_string pattern flattened)
      sensitive_patterns

-- The cases of the switch, on a command that is normal.
unfoldable pub check_normal : Text → CommandSafetyResult
unfolding contains_control_sequence looks_sensitive
check_normal command =
    if is_empty command
    then unsafe empty
    else if ltb max_command_length (length command)
    then unsafe too_long
    else if contains_control_sequence command
    then unsafe control_sequence
    else if looks_sensitive command
    then unsafe sensitive
    else safe

unfoldable pub check_command_safety : Text → CommandSafetyResult
unfolding normalize_history_command check_normal
check_command_safety command = check_normal (normalize_history_command command)

-- ===== src/NetworkDiag.antt =====
-- internal/networkdiag/commands.go: the request for a diagnostic, how long it may run, and what its
-- target has to be. The children hold the script that is sent to the server and what comes back.
pub mod Ip
pub mod Quote
mod Target
mod Script
mod Whole
pub mod Output
mod Lines
mod Status
mod Tests
use myapptest.Common.{
  ℤ, pos, is_positive, ltb_ℤ, Bool, true, false, String, Text, if◌then◌else◌, ◌⊎◌, inl, inr, length,
  utf8, trim_space, is_empty, contains_any, codes, trim_of, split_on, List, [], ◌∷◌, ltb, leb,
  ends_with, ◌||◌, ◌&&◌, ℕ, nat_beq, ◌+◌, ◌*◌,
}
use Ip.{parse_ip}

pub data NetworkDiagnosticType : Type 0 where
  ping traceroute dns tcp : NetworkDiagnosticType
  other : String → NetworkDiagnosticType

pub record StartNetworkDiagnosticRequest : Type 0 where
  pub server_id : ℤ
  pub type : NetworkDiagnosticType
  pub target : Text
  pub port : ℤ
  pub count : ℤ
  pub timeout_seconds : ℤ

pub data TargetError : Type 0 where
  target_empty target_too_long target_not_a_host : TargetError

-- What a target may not contain.
abbrev pub forbidden : Text
forbidden = codes "/\\?&#;$`|<>(){}[]\"' \t\r\n"

-- The range test of a label's code point.
abbrev pub is_label_char : ℕ → Bool
is_label_char r =
    (leb b'a' r && leb r b'z')
    || (leb b'A' r && leb r b'Z')
    || (leb b'0' r && leb r b'9')
    || nat_beq r b'-'

abbrev pub begins_with : ℕ → Text → Bool
begins_with d [] = false
begins_with d (c ∷ s) = nat_beq c d

-- The code points of a label, and then the label.
abbrev pub are_label_chars : Text → Bool
are_label_chars [] = true
are_label_chars (r ∷ s) = is_label_char r && are_label_chars s

abbrev pub is_label : Text → Bool
is_label label =
    if is_empty label
      || ltb 63 (length (utf8 label))
      || begins_with b'-' label
      || ends_with b'-' label
    then false
    else are_label_chars label

abbrev pub are_labels : List Text → Bool
are_labels [] = true
are_labels (label ∷ labels) = is_label label && are_labels labels

unfoldable pub check_target : Text → TargetError ⊎ Text
unfolding trim_of split_on parse_ip utf8
check_target value =
    if is_empty value
    then inl target_empty
    else if ltb 253 (length (utf8 value))
    then inl target_too_long
    else if contains_any forbidden value
    then inl target_not_a_host
    else if parse_ip (trim_of (codes "[]") value)
    then inr value
    else if are_labels (split_on b'.' value)
    then inr value
    else inl target_not_a_host

unfoldable pub validate_target : Text → TargetError ⊎ Text
unfolding check_target trim_space
validate_target value = check_target (trim_space value)

-- A number that is not positive becomes the default, and one above the limit the limit.
unfoldable pub clamp : ℕ → ℕ → ℤ → ℕ
clamp default limit (pos n) = if ltb 0 n then (if ltb limit n then limit else n) else default
clamp default limit (ℤ.negsuc n) = default

abbrev pub normal_count : StartNetworkDiagnosticRequest → ℕ
unfolding clamp
normal_count request = clamp 4 10 request.count

abbrev pub normal_timeout : StartNetworkDiagnosticRequest → ℕ
unfolding clamp
normal_timeout request = clamp 3 30 request.timeout_seconds

unfoldable pub timeout_for : (type : NetworkDiagnosticType) (count timeout_seconds : ℕ) → ℕ
timeout_for NetworkDiagnosticType.traceroute count timeout_seconds = timeout_seconds * 20
timeout_for NetworkDiagnosticType.tcp count timeout_seconds = timeout_seconds + 5
timeout_for _ count timeout_seconds = timeout_seconds * count + 10

-- The seconds that a diagnostic may run.
unfoldable pub command_timeout : StartNetworkDiagnosticRequest → ℕ
unfolding timeout_for clamp
command_timeout request = timeout_for request.type (normal_count request) (normal_timeout request)

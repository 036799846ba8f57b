-- ===== src/NetworkDiag/Script.antt =====
-- BuildCommand of internal/networkdiag/commands.go: the script for a POSIX shell that runs a
-- diagnostic and prints its status last.
use mathlib.Core.List.{append_assoc}
use myapptest.Common.{
  ℤ, pos, ltb_ℤ, List, [], ◌∷◌, ◌++◌, ◌≡◌, ap, ◌∙◌, ◌⊎◌, inl, inr, Text, codes, decimal, join_with,
  ℕ, if◌then◌else◌, ◌||◌,
}
use myapptest.NetworkDiag.{
  StartNetworkDiagnosticRequest, NetworkDiagnosticType, TargetError, validate_target, normal_count,
  normal_timeout, clamp,
}
use myapptest.NetworkDiag.Quote.{shell_quote}

abbrev pub exit_marker : Text
exit_marker = codes "__SERVERPILOT_DIAG_EXIT__"

-- The lines of a script.
join_lines : List Text → Text
unfolding join_with
join_lines lines = join_with (codes "\n") lines

-- `%d` of a number that is not negative.
number : ℕ → Text
unfolding decimal
number n = decimal (pos n)

unfoldable ping_body : (count timeout_seconds : ℕ) → Text
unfolding join_lines number
ping_body count timeout_seconds = join_lines (
    codes "if command -v ping >/dev/null 2>&1; then"
    ∷ (codes "  ping -c "
        ++ number count
        ++ codes " -W "
        ++ number timeout_seconds
        ++ codes " \"$target\"")
    ∷ codes "  status=$?"
    ∷ codes "  if [ \"$status\" -ne 0 ]; then"
    ∷ (codes "    ping -c " ++ number count ++ codes " \"$target\"")
    ∷ codes "    status=$?"
    ∷ codes "  fi"
    ∷ codes "else"
    ∷ codes "  echo '服务器缺少 ping 工具。'"
    ∷ codes "  status=127"
    ∷ codes "fi"
    ∷ [])

unfoldable traceroute_body : (count : ℕ) → Text
unfolding join_lines number
traceroute_body count = join_lines (
    codes "if command -v traceroute >/dev/null 2>&1; then"
    ∷ codes "  traceroute \"$target\""
    ∷ codes "  status=$?"
    ∷ codes "elif command -v tracepath >/dev/null 2>&1; then"
    ∷ codes "  tracepath \"$target\""
    ∷ codes "  status=$?"
    ∷ codes "elif command -v ping >/dev/null 2>&1; then"
    ∷ codes "  echo '服务器未安装 traceroute / tracepath，改用 ping。'"
    ∷ (codes "  ping -c " ++ number count ++ codes " \"$target\"")
    ∷ codes "  status=$?"
    ∷ codes "else"
    ∷ codes "  echo '服务器未安装 traceroute / tracepath。'"
    ∷ codes "  status=127"
    ∷ codes "fi"
    ∷ [])

unfoldable dns_body : Text
unfolding join_lines
dns_body = join_lines (
    codes "if command -v getent >/dev/null 2>&1; then"
    ∷ codes "  getent hosts \"$target\""
    ∷ codes "  status=$?"
    ∷ codes "elif command -v nslookup >/dev/null 2>&1; then"
    ∷ codes "  nslookup \"$target\""
    ∷ codes "  status=$?"
    ∷ codes "elif command -v dig >/dev/null 2>&1; then"
    ∷ codes "  dig \"$target\""
    ∷ codes "  status=$?"
    ∷ codes "else"
    ∷ codes "  echo '服务器缺少 DNS 查询工具。'"
    ∷ codes "  status=127"
    ∷ codes "fi"
    ∷ [])

unfoldable pub tcp_body : (timeout_seconds : ℕ) (port : ℤ) → Text
unfolding join_lines number decimal
tcp_body timeout_seconds port = join_lines (
    (codes "port=" ++ decimal port)
    ∷ codes "if command -v nc >/dev/null 2>&1; then"
    ∷ (codes "  nc -vz -w " ++ number timeout_seconds ++ codes " \"$target\" \"$port\"")
    ∷ codes "  status=$?"
    ∷ codes "  if [ \"$status\" -ne 0 ]; then"
    ∷ (codes "    nc -z -w " ++ number timeout_seconds ++ codes " \"$target\" \"$port\"")
    ∷ codes "    status=$?"
    ∷ codes "  fi"
    ∷ codes "elif command -v timeout >/dev/null 2>&1; then"
    ∷ (codes "  timeout "
        ++ number timeout_seconds
        ++ codes " sh -c 'cat < /dev/null > /dev/tcp/\"$1\"/\"$2\"' sh \"$target\" \"$port\"")
    ∷ codes "  status=$?"
    ∷ codes "else"
    ∷ codes "  sh -c 'cat < /dev/null > /dev/tcp/\"$1\"/\"$2\"' sh \"$target\" \"$port\""
    ∷ codes "  status=$?"
    ∷ codes "fi"
    ∷ [])

pub data CommandError : Type 0 where
  bad_target : TargetError → CommandError
  port_out_of_range unsupported_type : CommandError

-- The part of the script that runs the tool, with the count and the timeout made normal.
unfoldable pub body_for :
    (type : NetworkDiagnosticType) (port : ℤ) (count timeout_seconds : ℕ) → CommandError ⊎ Text
unfolding ping_body traceroute_body dns_body tcp_body
body_for NetworkDiagnosticType.ping port count timeout_seconds =
    inr (ping_body count timeout_seconds)
body_for NetworkDiagnosticType.traceroute port count timeout_seconds = inr (traceroute_body count)
body_for NetworkDiagnosticType.dns port count timeout_seconds = inr dns_body
body_for NetworkDiagnosticType.tcp port count timeout_seconds =
    if ltb_ℤ port (pos 1) || ltb_ℤ (pos 65535) port
    then inl port_out_of_range
    else inr (tcp_body timeout_seconds port)
body_for (NetworkDiagnosticType.other name) port count timeout_seconds = inl unsupported_type

unfoldable pub body_of : StartNetworkDiagnosticRequest → CommandError ⊎ Text
unfolding body_for clamp
body_of request = body_for request.type request.port (normal_count request) (normal_timeout request)

-- The whole script, from its target and its body.
unfoldable pub script_of : (target body : Text) → Text
unfolding join_lines shell_quote
script_of target body = join_lines (
    (codes "target=" ++ shell_quote target)
    ∷ body
    ∷ (codes "printf '\\n" ++ exit_marker ++ codes "%s\\n' \"$status\"")
    ∷ codes "exit 0"
    ∷ [])

newline : Text
newline = codes "\n"

last_lines : Text
unfolding join_lines
last_lines =
    join_lines
      ((codes "printf '\\n" ++ exit_marker ++ codes "%s\\n' \"$status\"") ∷ codes "exit 0" ∷ [])

-- What follows the body.
pub script_end : Text
unfolding last_lines
script_end = b'\n' ∷ last_lines

pub script_of-append :
    (target body : Text)
    → script_of target body
      ≡ codes "target=" ++ (shell_quote target ++ b'\n' ∷ (body ++ script_end))
unfolding script_of script_end join_lines newline
script_of-append target body =
    ap (λ (t : Text). codes "target=" ++ t)
      (append_assoc (shell_quote target) newline (body ++ newline ++ last_lines)
        ∙ ap (λ (t : Text). shell_quote target ++ b'\n' ∷ t) (append_assoc body newline last_lines))

-- The first error, that of the target before that of the type, or the script.
unfoldable pub assemble : TargetError ⊎ Text → CommandError ⊎ Text → CommandError ⊎ Text
unfolding script_of
assemble (inl e) body = inl (bad_target e)
assemble (inr target) (inl e) = inl e
assemble (inr target) (inr body) = inr (script_of target body)

unfoldable pub build_command : StartNetworkDiagnosticRequest → CommandError ⊎ Text
unfolding validate_target body_of assemble
build_command request = assemble (validate_target request.target) (body_of request)

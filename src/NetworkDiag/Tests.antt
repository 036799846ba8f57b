-- ===== src/NetworkDiag/Tests.antt =====
-- Examples for internal/networkdiag/commands.go.
use myapptest.Common.{
  ◌≤◌, ℤ, pos, negsuc, true, false, [], ◌∷◌, ◌++◌, ◌≡◌, refl, ◌↔◌, inl, inr, Text, codes, arith,
  is_empty, length, utf8, contains_any, trim_space, decimal,
}
use myapptest.NetworkDiag.{
  StartNetworkDiagnosticRequest, NetworkDiagnosticType, validate_target, target_empty,
  target_not_a_host, begins_with, command_timeout,
}
use myapptest.NetworkDiag.Ip.{parse_ip}
use myapptest.NetworkDiag.Target.{validate_target-inr, shell_signs}
use myapptest.NetworkDiag.Script.{build_command, body_of, exit_marker, bad_target}
use myapptest.NetworkDiag.Output.{strip_exit_marker}
use myapptest.NetworkDiag.Whole.{
  build_command-HasTarget, build_command-accepts, HasTarget, IsSupported,
}
use myapptest.NetworkDiag.Status.{strip_exit_marker-status}

abbrev request_of : NetworkDiagnosticType → Text → ℤ → StartNetworkDiagnosticRequest
request_of type target port = record {
  server_id = pos 1;
  type = type;
  target = target;
  port = port;
  count = pos 99;
  timeout_seconds = negsuc 0;
}

abbrev tcp_request : StartNetworkDiagnosticRequest
tcp_request = request_of NetworkDiagnosticType.tcp (codes " example.com ") (pos 443)

address_test : parse_ip (codes "2001:db8::1") ≡ true
unfolding parse_ip
address_test = refl

mapped_address_test : parse_ip (codes "::ffff:10.0.0.1") ≡ true
unfolding parse_ip
mapped_address_test = refl

long_address_test : parse_ip (codes "1:2:3:4:5:6:7:8::") ≡ false
unfolding parse_ip
long_address_test = refl

zero_field_test : parse_ip (codes "10.0.01.1") ≡ false
unfolding parse_ip
zero_field_test = refl

empty_test : validate_target (codes " \t") ≡ inl target_empty
unfolding validate_target
empty_test = refl

option_test : validate_target (codes "-f.example") ≡ inl target_not_a_host
unfolding validate_target
option_test = refl

injected_test :
    build_command (request_of NetworkDiagnosticType.ping (codes "a;reboot") (pos 0))
    ≡ inl (bad_target target_not_a_host)
unfolding build_command
injected_test = refl

timeout_test : command_timeout tcp_request ≡ 8
unfolding command_timeout
timeout_test = refl

marker_test :
    strip_exit_marker (codes "a\r\n \nb\n__SERVERPILOT_DIAG_EXIT__2\n")
    ≡ (codes "a" ∷ codes "b" ∷ [], pos 2)
unfolding strip_exit_marker
marker_test = refl

validated : validate_target (codes " example.com ") ≡ inr (codes "example.com")
unfolding validate_target
validated = refl

validate_target-inr_example :
    (codes "example.com" ≡ trim_space (codes " example.com "))
    × (is_empty (codes "example.com") ≡ false)
    × (length (utf8 (codes "example.com")) ≤ 253)
    × (contains_any shell_signs (codes "example.com") ≡ false)
    × (begins_with b'-' (codes "example.com") ≡ false)
validate_target-inr_example =
    validate_target-inr (codes " example.com ") (codes "example.com") validated

ping_request : StartNetworkDiagnosticRequest
ping_request = request_of NetworkDiagnosticType.ping (codes "::1") (pos 0)

pinged : (script : Text) × (build_command ping_request ≡ inr script)
unfolding build_command ping_request
pinged = (_, refl)

build_command-HasTarget_example :
    (target : Text) × (body : Text) × (validate_target ping_request.target ≡ inr target)
    × (body_of ping_request ≡ inr body)
    × HasTarget pinged.0 target body
    × (begins_with b'-' target ≡ false)
build_command-HasTarget_example = build_command-HasTarget ping_request pinged.0 pinged.1

build_command-accepts_example : ((script : Text) × (build_command tcp_request ≡ inr script)) ↔ (
    ((target : Text) × (validate_target tcp_request.target ≡ inr target))
    × IsSupported tcp_request.type tcp_request.port)
build_command-accepts_example = build_command-accepts tcp_request

strip_exit_marker-status_example :
    strip_exit_marker
      (codes "reached\r\n" ++ b'\n' ∷ (exit_marker ++ decimal (pos 127) ++ b'\n' ∷ []))
    ≡ ((strip_exit_marker (codes "reached\r\n")).0, pos 127)
strip_exit_marker-status_example = strip_exit_marker-status (codes "reached\r\n") 127 (omega arith)

-- ===== src/ConnectionError/Tests.antt =====
-- Errors at concrete inputs.
use myapptest.Common.{
  pos, [], ◌∷◌, none, some, false, ◌≡◌, refl, sym, ap, some_inj, codes, to_lower, contains_text,
}
use myapptest.Domain.{AuthType, ErrorCode, ConnectionStatus}
use myapptest.ConnectionError.{status_for_code}
use myapptest.ConnectionError.Chain.{
  Kind, Layer, Chain, GoError, RouteError, as_route, as_host_key, as_credential, is_timeout,
  has_errno,
}
use myapptest.ConnectionError.Classify.{Errnos, Call, classify, classify_error, contains_any}
use myapptest.ConnectionError.Retrying.{is_route_kind, is_trust_status, retryable_no_trust}
use myapptest.ConnectionError.HostKeys.{host_key_found}

abbrev linux : Errnos
linux = record { refused = 111; host_unreachable = 113; network_unreachable = 101 }

abbrev call : Call
call = record {
  connection_id = pos 3;
  auth_type = AuthType.password;
  operation = "monitor.connect";
  timestamp = "2024-05-01T10:00:00Z";
}

abbrev layer : Kind → Layer
layer k = record { kind = k; timeout = none }

abbrev refused : GoError
refused = record {
  chain = layer Kind.other ∷ layer Kind.syscall ∷ layer (Kind.errno 111) ∷ [];
  text = codes "dial tcp: connect: Connection refused";
}

abbrev by_text : GoError
by_text = record { chain = layer Kind.other ∷ []; text = codes "ssh: Handshake Failed" }

by_text_code : (classify linux (some by_text) call).code ≡ ErrorCode.handshake_failed
unfolding classify as_route as_host_key as_credential contains_text to_lower has_errno is_timeout
    contains_any
by_text_code = refl

abbrev over_jump : RouteError
over_jump = record {
  kind = ErrorCode.jump_connection_failed;
  stage = "jump";
  credential_server_id = pos 9;
  credential_server_name = "gate";
  user_message = codes "unreachable";
}

abbrev routed : GoError
routed = record { chain = layer (Kind.route over_jump) ∷ refused.chain; text = codes "unreachable" }

retryable_no_trust_example :
    is_trust_status (status_for_code (classify_error linux routed call).code) ≡ false
unfolding classify_error as_route as_host_key
retryable_no_trust_example =
    retryable_no_trust linux routed call
      (λ route wrapped h.
        ap (λ (found : RouteError × Chain). is_route_kind found.0.kind) (sym (some_inj h)))
      refl

abbrev changed : GoError
changed = record {
  chain = layer Kind.other ∷ layer (Kind.host_key (codes "SHA256:a") (codes "SHA256:b")) ∷ [];
  text = codes "ssh: handshake failed: host key changed";
}

host_key_found_example :
    let result = classify_error linux changed call in
    (result.expected_fingerprint ≡ codes "SHA256:a")
    × (result.observed_fingerprint ≡ codes "SHA256:b")
    × (as_route (layer Kind.other ∷ []) ≡ none
        → (result.retryable ≡ false)
          × (status_for_code result.code ≡ ConnectionStatus.hostkey_mismatch)
          × (result.code ≡ ErrorCode.host_key_mismatch))
unfolding as_route
host_key_found_example =
    host_key_found linux changed call (layer Kind.other ∷ [])
      (layer (Kind.host_key (codes "SHA256:a") (codes "SHA256:b"))) [] (codes "SHA256:a")
      (codes "SHA256:b") refl (refl, tt) refl refl

-- ===== src/ConnectionError/Retrying.antt =====
-- `Classify` and `StatusForCode`: which failures can be tried again, and what they show.
use myapptest.ConnectionError.Branches.{of_route, of_host_key, of_credential, of_network}
use myapptest.Common.{
  sym, ap, ◌∙◌, Bool, true, false, none, some, ◌≡◌, refl, arith, Text, Option-cases, inl, inr, map,
  to_lower,
}
use myapptest.Domain.{ConnectionStatus, ErrorCode, ConnectionError}
use myapptest.ConnectionError.{status_for_code}
use myapptest.ConnectionError.Chain.{
  CredentialError, RouteError, Chain, GoError, as_route, as_host_key, as_credential,
}
use myapptest.ConnectionError.Classify.{
  Errnos, Call, classify_error, classify_text, classify_network, classify_credential,
  classify_host_key, classify_route, unknown_error,
}

-- The codes of a network or a server that may answer another time.
abbrev pub is_transient : ErrorCode → Bool
is_transient ErrorCode.timeout = true
is_transient ErrorCode.connection_closed = true
is_transient ErrorCode.keepalive_failed = true
is_transient ErrorCode.dns_failed = true
is_transient ErrorCode.refused = true
is_transient ErrorCode.unreachable = true
is_transient ErrorCode.algorithm_unsupported = true
is_transient ErrorCode.handshake_failed = true
is_transient _ = false

abbrev IsRight : ConnectionError → Type 0
IsRight r = r.retryable ≡ is_transient r.code

classify_text-IsRight :
    (r : ConnectionError) (message : Text) → IsRight r → IsRight (classify_text r message)
unfolding classify_text
classify_text-IsRight r message h = ground (arith, h)

classify_network-IsRight :
    (errnos : Errnos) (r : ConnectionError) (e : GoError)
    → IsRight r
    → IsRight (classify_network errnos r e)
unfolding classify_network
classify_network-IsRight errnos r e h =
    ground (arith, h, classify_text-IsRight r (map to_lower e.text) h)

classify_credential-IsRight :
    (errnos : Errnos) (e : GoError) (call : Call) (failure : CredentialError)
    → IsRight (classify_credential (unknown_error (some e) call) call.auth_type failure)
unfolding classify_credential
classify_credential-IsRight errnos e call failure = ground arith

-- A failure that no route error is part of can be tried again exactly when its code is one of the
-- network, of the handshake or of a lost connection.
pub classify_error-retryable :
    (errnos : Errnos) (e : GoError) (call : Call)
    → as_route e.chain ≡ none
    → (classify_error errnos e call).retryable ≡ is_transient (classify_error errnos e call).code
unfolding classify_host_key
classify_error-retryable errnos e call r = elim (Option-cases (as_host_key e.chain)) [
  | inr ((expected, observed), h) ↦
      rw (of_host_key errnos e call expected observed r h) (ground arith)
  | inl h ↦ elim (Option-cases (as_credential e.chain)) [
    | inr (failure, c) ↦
        rw (of_credential errnos e call failure r h c)
          (classify_credential-IsRight errnos e call failure)
    | inl c ↦ rw (of_network errnos e call r h c) (classify_network-IsRight errnos _ e refl)
  ]
]

-- The kinds that the code makes a route error of.
abbrev pub is_route_kind : ErrorCode → Bool
is_route_kind ErrorCode.jump_server_missing = true
is_route_kind ErrorCode.jump_connection_failed = true
is_route_kind ErrorCode.jump_auth_failed = true
is_route_kind ErrorCode.jump_host_key_failed = true
is_route_kind ErrorCode.target_unreachable_through_jump = true
is_route_kind ErrorCode.target_auth_failed = true
is_route_kind ErrorCode.target_host_key_failed = true
is_route_kind _ = false

-- The statuses that ask the user for another secret or for trust.
abbrev pub is_trust_status : ConnectionStatus → Bool
is_trust_status ConnectionStatus.auth_failed = true
is_trust_status ConnectionStatus.key_error = true
is_trust_status ConnectionStatus.hostkey_mismatch = true
is_trust_status _ = false

transient_no_trust :
    (code : ErrorCode) → is_transient code ≡ true → is_trust_status (status_for_code code) ≡ false
unfolding status_for_code
transient_no_trust code h = ground (arith, h)

route_no_trust :
    (result : ConnectionError) (route : RouteError) (wrapped : Chain)
    → is_route_kind route.kind ≡ true
    → (classify_route result route wrapped).retryable ≡ true
    → is_trust_status (status_for_code (classify_route result route wrapped).code) ≡ false
unfolding classify_route status_for_code
route_no_trust result route wrapped k t = elim (Option-cases (as_host_key wrapped)) [
  | inl h ↦ ground (arith, h, k, t)
  | inr (f, h) ↦ ground (arith, h, k, t)
]

-- An error that can be tried again, with its route error, if any, of one of the kinds that the
-- code has, never shows the status of a failed authentication, of a bad key or of a host key
-- that is not trusted.
pub retryable_no_trust :
    (errnos : Errnos) (e : GoError) (call : Call)
    → ((route : RouteError) (wrapped : Chain)
        → as_route e.chain ≡ some (route, wrapped)
        → is_route_kind route.kind ≡ true)
    → (classify_error errnos e call).retryable ≡ true
    → is_trust_status (status_for_code (classify_error errnos e call).code) ≡ false
retryable_no_trust errnos e call kinds t = elim (Option-cases (as_route e.chain)) [
  | inl r ↦ transient_no_trust _ (sym (classify_error-retryable errnos e call r) ∙ t)
  | inr ((route, wrapped), r) ↦
      let q = of_route errnos e call route wrapped r in
      rw q (
        route_no_trust _ route wrapped (kinds route wrapped r)
          (sym (ap (λ (x : ConnectionError). x.retryable) q) ∙ t))
]

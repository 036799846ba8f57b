-- ===== src/Validation/Accepted.antt =====
-- internal/domain/validation.go: which requests `ValidateConnection` accepts.
use myapptest.Common.{
  ℤ, int_eq, false, Option, none, some, ◌≡◌, ◌↔◌, inl, inr, arith, IsBlank, trim_space-empty, Text,
  trim_space, is_empty, Bool-cases, refl, false≢true, sym, ◌∙◌, if◌then◌else◌, not,
}
use myapptest.Domain.{AuthType}
use myapptest.Validation.{
  SaveConnectionRequest, ValidationError, validate_connection, normalize_server_display_name,
  check_key, error_of, or_else, is_known_auth_type,
}
use myapptest.Validation.Checks.{
  IsRoute, IsAuth, IsPort, IsInterval, check_refresh-none, check_route-none, required_test,
  check_key_source-none,
}

abbrev pub IsAcceptable : SaveConnectionRequest → Type 0
IsAcceptable r =
    (¬ IsBlank r.host)
    × IsPort r.port
    × (¬ IsBlank r.username)
    × IsAuth r r.auth_type
    × IsRoute r r.connection_mode
    × IsInterval r.refresh_interval

or_else-none : (a b : Option ValidationError) → (or_else a b ≡ none) ↔ ((a ≡ none) × (b ≡ none))
or_else-none none b = (λ h. (refl, h), λ (_, h). h)
or_else-none (some e) b = (λ h. ground arith, λ (h, _). h)

name_test :
    (name host : Text) (port : ℤ)
    → (error_of (normalize_server_display_name name host port) ≡ none)
      ↔ ((¬ IsBlank host) × IsPort port)
unfolding normalize_server_display_name
name_test name host port = elim (Bool-cases (is_empty (trim_space host))) [
  | inl h ↦ rw h (λ x. ground arith, λ (b, x). absurd (b ((trim_space-empty host).0 h)))
  | inr h ↦ (
    λ x. (λ b. false≢true (sym h ∙ (trim_space-empty host).1 b), port_test h x),
    λ (_, p). ground arith,
  )
]
  where
    port_test :
        is_empty (trim_space host) ≡ false
        → error_of (normalize_server_display_name name host port) ≡ none
        → IsPort port
    port_test h x = ground arith

auth_test :
    (r : SaveConnectionRequest) (t : AuthType) (rest : Option ValidationError)
    → ((if not (is_known_auth_type t) then some ValidationError.unsupported_auth_type else rest)
          ≡ none)
        × (check_key r t ≡ none)
      ↔ (IsAuth r t × (rest ≡ none))
unfolding check_key
auth_test r AuthType.password rest = (λ (h, _). (inl refl, h), λ (_, h). (h, refl))
auth_test r AuthType.private_key rest = (
  λ (h, k). (inr (refl, (check_key_source-none r r.private_key_source).0 k), h),
  λ (a, h). elim a [
    | inl e ↦ ground arith
    | inr (_, k) ↦ (h, (check_key_source-none r r.private_key_source).1 k)
  ],
)
auth_test r (AuthType.other t) rest = ground arith

known_test :
    (t : AuthType) (rest : Option ValidationError)
    → (if not (is_known_auth_type t) then some ValidationError.unsupported_auth_type else rest)
      ≡ none
    → rest ≡ none
known_test t rest h = ground (arith, h)

-- A request is accepted exactly when its host and its user name are not blank, its port is one of
-- 1 to 65535, it is authenticated by a password or by a key that is a named file or an entry of
-- the vault, it is reached directly or over a server that is not the target itself, and it is
-- refreshed every 1, 2 or 5 seconds.
pub validate_connection-none :
    (r : SaveConnectionRequest) → (validate_connection r ≡ none) ↔ IsAcceptable r
unfolding validate_connection
validate_connection-none r = (
  λ h.
      let (named, user) = (or_else-none _ _).0 h in
      let (user_named, a) = (required_test r.username _ _).0 user in
      let rest = known_test r.auth_type _ a in
      let (route, k) = (or_else-none _ _).0 rest in
      let (key, interval) = (or_else-none _ _).0 k in
      let (host, port) = (name_test r.name r.host r.port).0 named in
      let (auth, _) = (auth_test r r.auth_type _).0 (a, key) in
      (
        host,
        port,
        user_named,
        auth,
        (check_route-none r r.connection_mode).0 route,
        (check_refresh-none r.refresh_interval).0 interval,
      ),
  λ (host, port, user, auth, route, interval).
      let (_, key) = (auth_test r r.auth_type none).1 (auth, refl) in
      let settings =
        (or_else-none _ _).1 (key, (check_refresh-none r.refresh_interval).1 interval) in
      let rest = (or_else-none _ _).1 ((check_route-none r r.connection_mode).1 route, settings) in
      let (known, _) = (auth_test r r.auth_type _).1 (auth, rest) in
      (or_else-none _ _).1 (
        (name_test r.name r.host r.port).1 (host, port),
        (required_test r.username _ _).1 (user, known),
      ),
)

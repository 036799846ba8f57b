-- ===== src/ConnectionError/Branches.antt =====
-- `Classify`: what each of its branches returns, by the first layers of the chain.
use myapptest.Common.{none, some, ◌≡◌, refl, Text}
use myapptest.ConnectionError.Chain.{
  CredentialError, RouteError, Chain, GoError, as_route, as_host_key, as_credential,
}
use myapptest.ConnectionError.Classify.{
  Errnos, Call, classify_error, classify_network, classify_credential, classify_host_key,
  classify_route, unknown_error,
}

module _ (errnos : Errnos) (e : GoError) (call : Call) where
  pub of_route :
      (route : RouteError) (wrapped : Chain)
      → as_route e.chain ≡ some (route, wrapped)
      → classify_error errnos e call ≡ classify_route (unknown_error (some e) call) route wrapped
  unfolding classify_error
  of_route route wrapped r = rw (r, classify_error) refl

  pub of_host_key :
      (expected observed : Text)
      → as_route e.chain ≡ none
      → as_host_key e.chain ≡ some (expected, observed)
      → classify_error errnos e call
        ≡ classify_host_key (unknown_error (some e) call) expected observed
  unfolding classify_error
  of_host_key expected observed r h = rw (r, h, classify_error) refl

  pub of_credential :
      (failure : CredentialError)
      → as_route e.chain ≡ none
      → as_host_key e.chain ≡ none
      → as_credential e.chain ≡ some failure
      → classify_error errnos e call
        ≡ classify_credential (unknown_error (some e) call) call.auth_type failure
  unfolding classify_error
  of_credential failure r h c = rw (r, h, c, classify_error) refl

  pub of_network :
      as_route e.chain ≡ none
      → as_host_key e.chain ≡ none
      → as_credential e.chain ≡ none
      → classify_error errnos e call ≡ classify_network errnos (unknown_error (some e) call) e
  unfolding classify_error
  of_network r h c = rw (r, h, c, classify_error) refl

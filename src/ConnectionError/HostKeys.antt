-- ===== src/ConnectionError/HostKeys.antt =====
-- `Classify`: a host key that is not trusted is not hidden by the errors that wrap it.
use myapptest.Common.{
  Bool, true, false, [], ◌⊎◌, ◌≢◌, none, some, Option, ◌∷◌, ◌++◌, ◌≡◌, refl, ap, sym, ◌∙◌, arith,
  Text, All, Option-cases, inl, inr, is_empty, if◌then◌else◌,
}
use myapptest.Domain.{ErrorCode, ConnectionStatus}
use myapptest.ConnectionError.{status_for_code}
use myapptest.ConnectionError.Branches.{of_route, of_host_key}
use myapptest.ConnectionError.Chain.{Kind, Layer, Chain, GoError, RouteError, as_route, as_host_key}
use myapptest.ConnectionError.Classify.{
  Errnos, Call, classify_error, classify_host_key, classify_route,
}

abbrev pub is_host_key : Layer → Bool
is_host_key l = elim l.kind [ Kind.host_key _ _ ↦ true | _ ↦ false ]

abbrev pub NoHostKey : Chain → Type 0
NoHostKey c = All (λ (l : Layer). is_host_key l ≡ false) c

as_host_key-append :
    (outer inner : Chain) → NoHostKey outer → as_host_key (outer ++ inner) ≡ as_host_key inner
unfolding as_host_key
as_host_key-append [] inner h = refl
as_host_key-append (l ∷ ls) inner (p, h) = ground (arith, p, as_host_key-append ls inner h)

some_not_none : {A : Type 0} (x : A) → some x ≢ none
some_not_none x h = ground (arith, h)

abbrev route_of : Layer → Option RouteError
route_of l = elim l.kind [ Kind.route r ↦ some r | _ ↦ none ]

as_route-here :
    (l : Layer) (ls : Chain) (r : RouteError)
    → route_of l ≡ some r
    → as_route (l ∷ ls) ≡ some (r, ls)
unfolding as_route
as_route-here l ls r h = ground (arith, h)

as_route-later : (l : Layer) (ls : Chain) → route_of l ≡ none → as_route (l ∷ ls) ≡ as_route ls
unfolding as_route
as_route-later l ls h = ground (arith, h)

-- With no route error in the inner part, the first one is in the outer part.
as_route-append :
    (outer inner : Chain)
    → NoHostKey outer
    → as_route inner ≡ none
    → ((as_route outer ≡ none) × (as_route (outer ++ inner) ≡ none))
      ⊎ ((route : RouteError) × (rest : Chain) × (as_route outer ≡ some (route, rest))
          × (as_route (outer ++ inner) ≡ some (route, rest ++ inner))
          × NoHostKey rest)
unfolding as_route
as_route-append [] inner h n = inl (refl, n)
as_route-append (l ∷ ls) inner (p, h) n = elim (Option-cases (route_of l)) [
  | inr (r, e) ↦ inr (r, ls, as_route-here l ls r e, as_route-here l (ls ++ inner) r e, h)
  | inl e ↦ elim (as_route-append ls inner h n) [
    | inl (a, b) ↦ inl (as_route-later l ls e ∙ a, as_route-later l (ls ++ inner) e ∙ b)
    | inr (r, rest, a, b, k) ↦
        inr (r, rest, as_route-later l ls e ∙ a, as_route-later l (ls ++ inner) e ∙ b, k)
  ]
]

as_host_key-here :
    (l : Layer) (ls : Chain) (expected observed : Text)
    → l.kind ≡ Kind.host_key expected observed
    → as_host_key (l ∷ ls) ≡ some (expected, observed)
unfolding as_host_key
as_host_key-here l ls expected observed h = ground (arith, h)

-- An error of a host key is found whatever errors without a host key wrap it, when no route error
-- is in what it wraps: the result has its two fingerprints, and, when no route error wraps it
-- either, it cannot be tried again and it is shown as a host key that does not match, with the
-- code of an unknown host key exactly when no fingerprint was expected.
pub host_key_found :
    (errnos : Errnos) (e : GoError) (call : Call) (outer : Chain) (l : Layer) (inner : Chain)
    (expected observed : Text)
    → e.chain ≡ outer ++ l ∷ inner
    → NoHostKey outer
    → l.kind ≡ Kind.host_key expected observed
    → as_route inner ≡ none
    → let result = classify_error errnos e call in
      (result.expected_fingerprint ≡ expected)
      × (result.observed_fingerprint ≡ observed)
      × (as_route outer ≡ none
          → (result.retryable ≡ false)
            × (status_for_code result.code ≡ ConnectionStatus.hostkey_mismatch)
            × (result.code ≡ (
                if is_empty expected
                then ErrorCode.host_key_unknown
                else ErrorCode.host_key_mismatch)))
unfolding status_for_code classify_host_key classify_route
host_key_found errnos e call outer l inner expected observed c h k n =
    let here = as_host_key-here l inner expected observed k in
    let no_route = as_route-later l inner (ground (arith, k)) ∙ n in
    elim (as_route-append outer (l ∷ inner) h no_route) [
      | inl (a, b) ↦
          rw
            (of_host_key errnos e call expected observed (ap as_route c ∙ b)
              (ap as_host_key c ∙ as_host_key-append outer (l ∷ inner) h ∙ here))
            (ground arith)
      | inr (r, rest, a, b, m) ↦
          let found = as_host_key-append rest (l ∷ inner) m ∙ here in
          rw
            (
              of_route errnos e call r (rest ++ l ∷ inner) (ap as_route c ∙ b),
              found,
              classify_route,
            )
            (refl, refl, λ z. absurd (some_not_none (r, rest) (sym a ∙ z)))
    ]

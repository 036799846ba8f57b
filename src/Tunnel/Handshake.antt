-- ===== src/Tunnel/Handshake.antt =====
-- What a SOCKS5 client sends, and that the tunnel reads exactly that.
use myapptest.Common.{
  ℕ, zero, suc, ◌/◌, ◌%◌, Bool, true, some, some_inj, List, [], ◌∷◌, ◌++◌, if◌then◌else◌, length,
  ◌≡◌, refl, sym, ap, ◌∙◌, arith, inl, inr, Option-cases,
}
use myapptest.Tunnel.Socks.{
  Address, Target, read_full, read_domain, read_port, read_request, read_socks_connect,
  handle_socks_conn, Outcome, write_socks_reply, no_authentication, dial_target,
}

-- The kind of an address and its bytes, as RFC 1928 lays them out.
abbrev pub encode_address : Address → List ℕ
encode_address (Address.ipv4 bytes) = 1 ∷ bytes
encode_address (Address.domain name) = 3 ∷ length name ∷ name
encode_address (Address.ipv6 bytes) = 4 ∷ bytes

abbrev pub IsAddress : Address → Type 0
IsAddress (Address.ipv4 bytes) = length bytes ≡ 4
IsAddress (Address.domain name) = Unit
IsAddress (Address.ipv6 bytes) = length bytes ≡ 16

-- A greeting that offers the methods, and a request to connect, followed by more bytes.
abbrev pub encode : List ℕ → ℕ → Target → List ℕ → List ℕ
encode methods reserved target rest =
    5 ∷ length methods ∷ methods
    ++ (5 ∷ 1 ∷ reserved ∷ encode_address target.address
        ++ (target.port / 256) ∷ (target.port % 256) ∷ rest)

read_full-length : (xs rest : List ℕ) → read_full (length xs) (xs ++ rest) ≡ some (xs, rest)
unfolding read_full
read_full-length [] rest = refl
read_full-length (x ∷ xs) rest = rw (read_full-length xs rest) refl

read_full-at :
    (n : ℕ) (xs rest : List ℕ) → length xs ≡ n → read_full n (xs ++ rest) ≡ some (xs, rest)
read_full-at n xs rest h = rw⁻¹ h (read_full-length xs rest)

read_port-encoded :
    (a : Address) (port : ℕ) (rest : List ℕ)
    → read_port a ((port / 256) ∷ (port % 256) ∷ rest)
      ≡ some (record { address = a; port = port }, rest)
unfolding read_port
read_port-encoded a port rest =
    ap (λ (p : ℕ). some (record { address = a; port = p }, rest)) (omega arith)

read_request-encoded :
    (reserved : ℕ) (target : Target) (rest : List ℕ)
    → IsAddress target.address
    → read_request (
        5 ∷ 1 ∷ reserved ∷ encode_address target.address
        ++ (target.port / 256) ∷ (target.port % 256) ∷ rest)
      ≡ (no_authentication ∷ [], some (target, rest))
unfolding read_request read_domain
read_request-encoded reserved t rest h = go t.address h
  where
    tail : List ℕ
    tail = (t.port / 256) ∷ (t.port % 256) ∷ rest

    go :
        (a : Address)
        → IsAddress a
        → read_request (5 ∷ 1 ∷ reserved ∷ encode_address a ++ tail)
          ≡ (no_authentication ∷ [], some (record { address = a; port = t.port }, rest))
    go (Address.ipv4 bytes) k =
        rw (read_full-at 4 bytes tail k, read_port-encoded (Address.ipv4 bytes) t.port rest) refl
    go (Address.ipv6 bytes) k =
        rw (read_full-at 16 bytes tail k, read_port-encoded (Address.ipv6 bytes) t.port rest) refl
    go (Address.domain name) k =
        rw (read_full-length name tail, read_port-encoded (Address.domain name) t.port rest) refl

greeted :
    (count : ℕ) (bytes methods rest : List ℕ)
    → read_full count bytes ≡ some (methods, rest)
    → read_socks_connect true (5 ∷ count ∷ bytes) ≡ read_request rest
unfolding read_socks_connect
greeted count bytes methods rest h = rw (h, read_socks_connect) refl

read_socks_connect-encode :
    (methods : List ℕ) (reserved : ℕ) (target : Target) (rest : List ℕ)
    → IsAddress target.address
    → read_socks_connect true (encode methods reserved target rest)
      ≡ (no_authentication ∷ [], some (target, rest))
read_socks_connect-encode methods reserved target rest h =
    let request =
      5 ∷ 1 ∷ reserved ∷ encode_address target.address
      ++ (target.port / 256) ∷ (target.port % 256) ∷ rest in
    greeted (length methods) (methods ++ request) methods request (read_full-length methods request)
    ∙ read_request-encoded reserved target rest h

-- A client that greets with any methods and asks for a target is joined with that target, and the
-- bytes that it has sent ahead go there, no more and no fewer; when the target cannot be dialled
-- it gets the reply for a failure and is closed.
pub handle_socks_conn-encode :
    (can_dial : Target → Bool) (methods : List ℕ) (reserved : ℕ) (target : Target) (rest : List ℕ)
    → IsAddress target.address
    → handle_socks_conn true can_dial (encode methods reserved target rest) ≡ (
        if can_dial target
        then (no_authentication ∷ write_socks_reply 0 ∷ [], Outcome.proxied target rest)
        else (no_authentication ∷ write_socks_reply 5 ∷ [], Outcome.failed))
unfolding handle_socks_conn
handle_socks_conn-encode can_dial methods reserved target rest h =
    ap (dial_target can_dial) (read_socks_connect-encode methods reserved target rest h)

pub read_full-some :
    (n : ℕ) (bytes xs rest : List ℕ)
    → read_full n bytes ≡ some (xs, rest)
    → (length xs ≡ n) × (bytes ≡ xs ++ rest)
unfolding read_full
read_full-some zero bytes xs rest h =
    let p : ([], bytes) ≡ (xs, rest) = some_inj h in
    (
      ap length (sym (ap (λ (q : List ℕ × List ℕ). q.0) p)),
      ap (λ (q : List ℕ × List ℕ). q.0 ++ q.1) p,
    )
read_full-some (suc n) [] xs rest h = ground (arith, h)
read_full-some (suc n) (b ∷ bytes) xs rest h = elim (Option-cases (read_full n bytes)) [
  | inl e ↦ ground (arith, h, e)
  | inr ((read, left), e) ↦
      let (l, s) = read_full-some n bytes read left e in
      let p : (b ∷ read, left) ≡ (xs, rest) = some_inj (sym (extended e) ∙ h) in
      (
        sym (ap (λ (q : List ℕ × List ℕ). length q.0) p) ∙ ap suc l,
        ap (λ (t : List ℕ). b ∷ t) s ∙ ap (λ (q : List ℕ × List ℕ). q.0 ++ q.1) p,
      )
]
  where
    extended :
        {read left : List ℕ}
        → read_full n bytes ≡ some (read, left)
        → read_full (suc n) (b ∷ bytes) ≡ some (b ∷ read, left)
    extended e = rw e refl

-- ===== src/Tunnel/Accepted.antt =====
-- The SOCKS5 clients that a tunnel accepts send what RFC 1928 lays out.
use myapptest.Common.{
  ℕ, ◌+◌, ◌*◌, ◌/◌, ◌%◌, ◌<◌, Bool, true, false, none, some, some_inj, List, [], ◌∷◌, ◌++◌, nat_beq,
  not, if◌then◌else◌, length, All, ◌≡◌, ◌≢◌, refl, sym, ap, ◌∙◌, arith, inl, inr, Option-cases,
  Bool-cases,
}
use mathlib.Core.Path.{subst}
use myapptest.Tunnel.Socks.{
  Address, Target, Host, read_full, read_domain, read_host, read_port, read_request,
  read_socks_connect, Answer, answer_host, host_of,
}
use myapptest.Tunnel.Handshake.{encode, encode_address, IsAddress, read_full-some}

abbrev pub IsBytes : List ℕ → Type 0
IsBytes bytes = All (λ (b : ℕ). b < 256) bytes

high_byte : (high low : ℕ) → low < 256 → high ≡ (high * 256 + low) / 256
high_byte high low h = omega (arith, h)

low_byte : (high low : ℕ) → low < 256 → low ≡ (high * 256 + low) % 256
low_byte high low h = omega (arith, h)

read_port-some :
    (a : Address) (bytes : List ℕ) (t : Target) (rest : List ℕ)
    → IsBytes bytes
    → read_port a bytes ≡ some (t, rest)
    → (t.address ≡ a) × (bytes ≡ (t.port / 256) ∷ (t.port % 256) ∷ rest)
unfolding read_port
read_port-some a [] t rest b h = ground (arith, h)
read_port-some a (high ∷ []) t rest b h = ground (arith, h)
read_port-some a (high ∷ low ∷ bytes) t rest (bh, (bl, bs)) h =
    let p : (record { address = a; port = high * 256 + low }, bytes) ≡ (t, rest) = some_inj h in
    (
      sym (ap (λ (q : Target × List ℕ). q.0.address) p),
      ap (λ (x : ℕ). x ∷ low ∷ bytes) (high_byte high low bl)
          ∙ ap (λ (x : ℕ). ((high * 256 + low) / 256) ∷ x ∷ bytes) (low_byte high low bl)
          ∙ ap (λ (q : Target × List ℕ). (q.0.port / 256) ∷ (q.0.port % 256) ∷ q.1) p,
    )

host_of-address :
    (make : List ℕ → Address) (n : ℕ) (bytes : List ℕ) (a : Address) (left : List ℕ)
    → host_of make (read_full n bytes) ≡ Host.address a left
    → (xs : List ℕ) × (a ≡ make xs) × (length xs ≡ n) × (bytes ≡ xs ++ left)
host_of-address make n bytes a left h = elim (Option-cases (read_full n bytes)) [
  | inl e ↦ ground (arith, h, e)
  | inr ((xs, more), e) ↦
      let (l, s) = read_full-some n bytes xs more e in
      (xs, ground (arith, h, e), l, ground (arith, h, e, s))
]

ipv4-address :
    (bytes : List ℕ) (a : Address) (left : List ℕ)
    → host_of Address.ipv4 (read_full 4 bytes) ≡ Host.address a left
    → (1 ∷ bytes ≡ encode_address a ++ left) × IsAddress a
ipv4-address bytes a left h =
    let (xs, e, l, s) = host_of-address Address.ipv4 4 bytes a left h in
    rw e (ap (λ (t : List ℕ). 1 ∷ t) s, l)

ipv6-address :
    (bytes : List ℕ) (a : Address) (left : List ℕ)
    → host_of Address.ipv6 (read_full 16 bytes) ≡ Host.address a left
    → (4 ∷ bytes ≡ encode_address a ++ left) × IsAddress a
ipv6-address bytes a left h =
    let (xs, e, l, s) = host_of-address Address.ipv6 16 bytes a left h in
    rw e (ap (λ (t : List ℕ). 4 ∷ t) s, l)

domain-address :
    (bytes : List ℕ) (a : Address) (left : List ℕ)
    → read_domain bytes ≡ Host.address a left
    → (3 ∷ bytes ≡ encode_address a ++ left) × IsAddress a
unfolding read_domain
domain-address [] a left h = ground (arith, h)
domain-address (n ∷ bytes) a left h =
    let (xs, e, l, s) = host_of-address Address.domain n bytes a left h in
    rw e (ap (λ (t : List ℕ). 3 ∷ n ∷ t) s ∙ ap (λ (k : ℕ). 3 ∷ k ∷ xs ++ left) (sym l), tt)

read_host-address :
    (kind : ℕ) (bytes : List ℕ) (a : Address) (left : List ℕ)
    → read_host kind bytes ≡ Host.address a left
    → (kind ∷ bytes ≡ encode_address a ++ left) × IsAddress a
unfolding read_host
read_host-address kind bytes a left h = elim (Bool-cases (nat_beq kind 1)) [
  | inl x ↦ of_kind 1 (ground (arith, x)) (ipv4-address bytes a left (ground (arith, h, x)))
  | inr x ↦ elim (Bool-cases (nat_beq kind 3)) [
    | inl y ↦ of_kind 3 (ground (arith, y)) (domain-address bytes a left (ground (arith, h, x, y)))
    | inr y ↦ elim (Bool-cases (nat_beq kind 4)) [
      | inl z ↦
          of_kind 4 (ground (arith, z)) (ipv6-address bytes a left (ground (arith, h, x, y, z)))
      | inr z ↦ ground (arith, h, x, y, z)
    ]
  ]
]
  where
    of_kind :
        (k : ℕ)
        → kind ≡ k
        → (k ∷ bytes ≡ encode_address a ++ left) × IsAddress a
        → (kind ∷ bytes ≡ encode_address a ++ left) × IsAddress a
    of_kind k e (p, v) = (ap (λ (x : ℕ). x ∷ bytes) e ∙ p, v)

answer_host-some :
    (x : Host) (w : List (List ℕ)) (t : Target) (rest : List ℕ)
    → answer_host x ≡ (w, some (t, rest))
    → (a : Address) × (left : List ℕ) × (x ≡ Host.address a left)
      × (read_port a left ≡ some (t, rest))
answer_host-some (Host.address a left) w t rest h = (a, left, refl, ap (λ (q : Answer). q.1) h)
answer_host-some Host.short w t rest h = ground (arith, h)
answer_host-some Host.unsupported w t rest h = ground (arith, h)

IsBytes-suffix : (xs ys : List ℕ) → IsBytes (xs ++ ys) → IsBytes ys
IsBytes-suffix [] ys b = b
IsBytes-suffix (x ∷ xs) ys (_, b) = IsBytes-suffix xs ys b

some_not_none : (f : Target × List ℕ) → some f ≢ none
some_not_none f e = ground (arith, e)

found_nothing :
    (x : Answer) (v : List (List ℕ)) (f : Target × List ℕ) → x.1 ≡ none → x ≡ (v, some f) → ⊥
found_nothing x v f n h = some_not_none f (sym (ap (λ (q : Answer). q.1) h) ∙ n)

two_guards :
    (p q : Bool) (w v u : List (List ℕ)) (x : Answer) (f : Target × List ℕ)
    → (if not p then (w, none) else if not q then (v, none) else x) ≡ (u, some f)
    → (p ≡ true) × (q ≡ true) × (x ≡ (u, some f))
two_guards false q w v u x f h = absurd (found_nothing (w, none) u f refl h)
two_guards true false w v u x f h = absurd (found_nothing (v, none) u f refl h)
two_guards true true w v u x f h = (refl, refl, h)

abbrev IsRequest : List ℕ → Target → List ℕ → Type 0
IsRequest bytes t rest =
    (reserved : ℕ) × (bytes
      ≡ 5 ∷ 1 ∷ reserved ∷ encode_address t.address ++ (t.port / 256) ∷ (t.port % 256) ∷ rest)
    × IsAddress t.address

read_request-some :
    (bytes : List ℕ) (w : List (List ℕ)) (t : Target) (rest : List ℕ)
    → IsBytes bytes
    → read_request bytes ≡ (w, some (t, rest))
    → IsRequest bytes t rest
unfolding read_request
read_request-some [] w t rest b h = absurd (found_nothing _ w _ refl h)
read_request-some (v ∷ []) w t rest b h = absurd (found_nothing _ w _ refl h)
read_request-some (v ∷ c ∷ []) w t rest b h = absurd (found_nothing _ w _ refl h)
read_request-some (v ∷ c ∷ r ∷ []) w t rest b h = absurd (found_nothing _ w _ refl h)
read_request-some (v ∷ c ∷ r ∷ kind ∷ bytes) w t rest (_, (_, (_, b))) h =
    let (is_5, is_1, answer) = two_guards (nat_beq v 5) (nat_beq c 1) _ _ w _ (t, rest) h in
    let (a, left, found, port) = answer_host-some (read_host kind bytes) w t rest answer in
    let (s, valid) = read_host-address kind bytes a left found in
    let (e, p) =
      read_port-some a left t rest (IsBytes-suffix (encode_address a) left (subst IsBytes s b))
        port in
    (
      r,
      ap (λ (x : ℕ). x ∷ c ∷ r ∷ kind ∷ bytes) (ground (arith, is_5))
          ∙ ap (λ (x : ℕ). 5 ∷ x ∷ r ∷ kind ∷ bytes) (ground (arith, is_1))
          ∙ ap (λ (x : List ℕ). 5 ∷ 1 ∷ r ∷ x) (s ∙ ap (λ (x : List ℕ). encode_address a ++ x) p)
          ∙ ap
              (λ (x : Address).
                5 ∷ 1 ∷ r ∷ encode_address x ++ (t.port / 256) ∷ (t.port % 256) ∷ rest)
              (sym e),
      rw e valid,
    )

-- A client whose bytes are accepted has greeted with some methods and has asked to connect to the
-- target, and all that it sent after that is left to be forwarded; and the answer to the greeting
-- was written.
pub read_socks_connect-some :
    (can_write : Bool) (bytes : List ℕ) (w : List (List ℕ)) (t : Target) (rest : List ℕ)
    → IsBytes bytes
    → read_socks_connect can_write bytes ≡ (w, some (t, rest))
    → (can_write ≡ true)
      × IsAddress t.address
      × (methods : List ℕ) × (reserved : ℕ) × (bytes ≡ encode methods reserved t rest)
unfolding read_socks_connect
read_socks_connect-some can_write [] w t rest b h = absurd (found_nothing _ w _ refl h)
read_socks_connect-some can_write (v ∷ []) w t rest b h = absurd (found_nothing _ w _ refl h)
read_socks_connect-some can_write (v ∷ count ∷ bytes) w t rest (_, (_, b)) h =
    elim (Option-cases (read_full count bytes)) [
      | inl e ↦ absurd (found_nothing _ w _ (no_methods e) h)
      | inr ((methods, left), e) ↦
          let (l, s) = read_full-some count bytes methods left e in
          let (is_5, wrote, answer) =
            two_guards (nat_beq v 5) can_write [] [] w _ (t, rest) (greeted e ∙ h) in
          let (reserved, p, valid) =
            read_request-some left w t rest (IsBytes-suffix methods left (subst IsBytes s b))
              answer in
          (
            wrote,
            valid,
            methods,
            reserved,
            ap (λ (x : ℕ). x ∷ count ∷ bytes) (ground (arith, is_5))
                ∙ ap (λ (x : ℕ). 5 ∷ x ∷ bytes) (sym l)
                ∙ ap (λ (x : List ℕ). 5 ∷ length methods ∷ x)
                    (s ∙ ap (λ (x : List ℕ). methods ++ x) p),
          )
    ]
  where
    no_methods :
        read_full count bytes ≡ none → (read_socks_connect can_write (v ∷ count ∷ bytes)).1 ≡ none
    no_methods e = ground (arith, e)

    greeted :
        {methods left : List ℕ}
        → read_full count bytes ≡ some (methods, left)
        → (if not (nat_beq v 5)
            then ([], none)
            else if not can_write
            then ([], none)
            else read_request left)
          ≡ read_socks_connect can_write (v ∷ count ∷ bytes)
    greeted e = ground (arith, e)

-- ===== src/Validation/Names.antt =====
-- internal/domain/validation.go: the name that a server is shown under.
use myapptest.Common.{
  ℕ, zero, suc, ◌+◌, ◌/◌, ◌%◌, ℤ, pos, negsuc, false, ◌∷◌, ◌≡◌, refl, sym, ◌∙◌, ap, ◌⊎◌, inl, inr,
  arith, IsBlank, IsWord, trim_space-cases, trim_space-framed, trim_space-empty, trim_space_idem,
  Text, trim_space, is_empty, Bool-cases, is_space, decimal, digits, false≢true, true≢false,
  All-append, leb, any, nat_beq,
}
use myapptest.Validation.{join_host_port, normalize_server_display_name}

digit_not_space : (d : ℕ) → is_space (b'0' + d % 10) ≡ false
unfolding is_space
digit_not_space d = ground arith

digit : (n : ℕ) → leb 10 n ≡ false → is_space (b'0' + n) ≡ false
unfolding is_space
digit n h = ground (arith, h)

digits-IsWord : (fuel n : ℕ) → IsWord (digits fuel n)
unfolding digits
digits-IsWord zero n = tt
digits-IsWord (suc fuel) n = elim (Bool-cases (leb 10 n)) [
  | inl h ↦
      rw h (
        All-append _ (digits fuel (n / 10)) _ (digits-IsWord fuel (n / 10)) (digit_not_space n, tt))
  | inr h ↦ rw h (digit n h, tt)
]

decimal-IsWord : (n : ℕ) → IsWord (decimal (pos n))
unfolding decimal
decimal-IsWord n = digits-IsWord (suc n) n

-- The name and port of a host that is not blank have no space around them.
join_host_port-trimmed :
    (host : Text) (n : ℕ)
    → is_empty (trim_space host) ≡ false
    → (trim_space (join_host_port (trim_space host) (pos n))
        ≡ join_host_port (trim_space host) (pos n))
      × (is_empty (join_host_port (trim_space host) (pos n)) ≡ false)
unfolding join_host_port is_space
join_host_port-trimmed host n h = elim (Bool-cases (any (nat_beq b':') (trim_space host))) [
  | inl b ↦ rw b (
    trim_space-framed b'[' (trim_space host) b']' (b':' ∷ decimal (pos n)) refl
        (refl, (refl, decimal-IsWord n)),
    refl,
  )
  | inr b ↦ elim (trim_space-cases host) [
    | inl e ↦ absurd (true≢false (sym (ap is_empty e) ∙ h))
    | inr (c, t, e, w) ↦
        rw b (rw e (trim_space-framed c t b':' (decimal (pos n)) w (refl, decimal-IsWord n), refl))
  ]
]

-- What a name that is given can be.
name-cases :
    (name host : Text) (port : ℤ) (n : Text)
    → normalize_server_display_name name host port ≡ inr n
    → ((trim_space name ≡ n) × (is_empty (trim_space name) ≡ false))
      ⊎ ((k : ℕ) × (port ≡ pos k)
          × (join_host_port (trim_space host) port ≡ n)
          × (is_empty (trim_space host) ≡ false))
unfolding normalize_server_display_name
name-cases name host (pos k) n h = elim (Bool-cases (is_empty (trim_space name))) [
  | inl b ↦ inr (k, refl, ground (arith, h), ground (arith, h))
  | inr b ↦ inl (ground (arith, h), b)
]
name-cases name host (negsuc k) n h = ground (arith, h)

name_trimmed :
    (name host : Text) (port : ℤ) (n : Text)
    → normalize_server_display_name name host port ≡ inr n
    → (trim_space n ≡ n) × (is_empty n ≡ false)
name_trimmed name host port n h = elim (name-cases name host port n h) [
  | inl (e, f) ↦ rw⁻¹ e (trim_space_idem name, f)
  | inr (k, p, e, f) ↦ rw⁻¹ e (rw p (join_host_port-trimmed host k f))
]

accepted_name :
    (name host : Text) (port : ℤ) (n m : Text)
    → normalize_server_display_name name host port ≡ inr n
    → is_empty (trim_space m) ≡ false
    → normalize_server_display_name m host port ≡ inr (trim_space m)
unfolding normalize_server_display_name
accepted_name name host port n m h e = ground (arith, h, e)

-- The name given to a server is not blank, and giving it again, for the same host and port, gives
-- the same name.
pub normalize_server_display_name_idem :
    (name host : Text) (port : ℤ) (n : Text)
    → normalize_server_display_name name host port ≡ inr n
    → (normalize_server_display_name n host port ≡ inr n) × (¬ IsBlank n)
normalize_server_display_name_idem name host port n h =
    let (t, e) = name_trimmed name host port n h in
    let e' = ap is_empty t ∙ e in
    (
      accepted_name name host port n n h e' ∙ ap inr t,
      λ b. false≢true (sym e' ∙ (trim_space-empty n).1 b),
    )

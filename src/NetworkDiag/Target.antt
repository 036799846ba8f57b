-- ===== src/NetworkDiag/Target.antt =====
-- What ValidateTarget of internal/networkdiag/commands.go lets through.
use mathlib.Core.Path.{subst}
use myapptest.Common.{
  ◌≤◌, true, false, false≢true, [], ◌∷◌, ◌≡◌, refl, sym, ◌∙◌, ◌⊎◌, inl, inr, arith, Text,
  Bool-cases, is_empty, contains_any, trim_space, trim_of, trim_left_of, trim_right_of, codes,
  split_on, length, utf8, ◌≢◌, List-cases, nat_beq_iff,
}
use myapptest.NetworkDiag.{
  validate_target, check_target, begins_with, is_label, are_labels, forbidden,
}
use myapptest.NetworkDiag.Ip.{parse_ip, parse_kind, parse_ipv6, ipv4_fields, ipv6_groups, hex_count}

parse_kind-cases :
    (whole s : Text)
    → parse_kind whole s ≡ true
    → (ipv4_fields 0 0 0 whole ≡ true) ⊎ (parse_ipv6 whole ≡ true)
unfolding parse_kind
parse_kind-cases whole [] h = absurd (false≢true h)
parse_kind-cases whole (c ∷ s) h = ground (arith, parse_kind-cases whole s)

ipv4_fields-dash : (s : Text) → ipv4_fields 0 0 0 (b'-' ∷ s) ≡ false
unfolding ipv4_fields
ipv4_fields-dash s = refl

ipv6_groups-dash : (s : Text) → ipv6_groups 8 false (b'-' ∷ s) ≡ false
unfolding ipv6_groups hex_count
ipv6_groups-dash s = refl

parse_ipv6-dash : (s : Text) → parse_ipv6 (b'-' ∷ s) ≡ false
unfolding parse_ipv6
parse_ipv6-dash [] = ground (arith, ipv6_groups-dash [])
parse_ipv6-dash (d ∷ rest) = ground (arith, ipv6_groups-dash (d ∷ rest))

parse_ip-dash : (s : Text) → parse_ip (b'-' ∷ s) ≡ false
unfolding parse_ip
parse_ip-dash s = elim (Bool-cases (parse_ip (b'-' ∷ s))) [
  | inl h ↦ elim (parse_kind-cases (b'-' ∷ s) (b'-' ∷ s) h) [
    | inl four ↦ absurd (false≢true (sym (ipv4_fields-dash s) ∙ four))
    | inr six ↦ absurd (false≢true (sym (parse_ipv6-dash s) ∙ six))
  ]
  | inr h ↦ h
]

trim_of-dash : (s : Text) → (t : Text) × (trim_of (codes "[]") (b'-' ∷ s) ≡ b'-' ∷ t)
unfolding trim_of trim_left_of trim_right_of
trim_of-dash s = elim (List-cases (trim_right_of (codes "[]") s)) [
  | inl h ↦ ([], rw h refl)
  | inr (e, r, h) ↦ (e ∷ r, rw h refl)
]

is_label-dash : (s : Text) → is_label (b'-' ∷ s) ≡ false
is_label-dash s = ground arith

are_labels-dash : (s : Text) → are_labels (split_on b'.' (b'-' ∷ s)) ≡ false
unfolding split_on
are_labels-dash s = elim (List-cases (split_on b'.' s)) [
  | inl h ↦ rw h (ground (arith, is_label-dash []))
  | inr (part, parts, h) ↦ rw h (ground (arith, is_label-dash part))
]

-- What a command takes as a target, and no option.
check_target-dash : (s t : Text) → check_target (b'-' ∷ s) ≢ inr t
unfolding check_target
check_target-dash s t h =
    let (r, e) = trim_of-dash s in ground (arith, e, are_labels-dash s, parse_ip-dash r)

check_target-begin : (s t : Text) → check_target s ≡ inr t → begins_with b'-' s ≡ false
check_target-begin [] t h = refl
check_target-begin (c ∷ s) t h = elim (Bool-cases (begins_with b'-' (c ∷ s))) [
  | inl d ↦ absurd (
      check_target-dash s t
        (subst (λ x. check_target (x ∷ s) ≡ inr t) ((nat_beq_iff c b'-').0 d) h))
  | inr d ↦ d
]

check_target-inr :
    (s t : Text)
    → check_target s ≡ inr t
    → (s ≡ t) × (is_empty s ≡ false) × (length (utf8 s) ≤ 253) × (contains_any forbidden s ≡ false)
unfolding check_target
check_target-inr s t h = ground arith

-- What separates commands, redirects, expands or quotes in a shell, and what separates words and
-- the parts of a path or a query. (The star, the tilde and the exclamation mark are not here.)
abbrev pub shell_signs : Text
shell_signs = codes "/\\?&#;$`|<>(){}[]\"' \t\r\n"

-- A target that ValidateTarget returns is the one it was given without the spaces around it. It is
-- not empty, it has at most 253 bytes, it does not begin with a dash, so no command takes it as an
-- option, and it has no space, tab or line break, no slash, and none of `\ ? & # ; $ | < > ( ) { }
-- [ ]`, quotes and back quotes.
pub validate_target-inr :
    (value t : Text)
    → validate_target value ≡ inr t
    → (t ≡ trim_space value)
      × (is_empty t ≡ false)
      × (length (utf8 t) ≤ 253)
      × (contains_any shell_signs t ≡ false)
      × (begins_with b'-' t ≡ false)
unfolding validate_target
validate_target-inr value t h =
    let b = check_target-begin (trim_space value) t h in
    let (e, n, l, f) = check_target-inr (trim_space value) t h in
    (
      sym e,
      subst (λ s. is_empty s ≡ false) e n,
      subst (λ s. length (utf8 s) ≤ 253) e l,
      subst (λ s. contains_any shell_signs s ≡ false) e f,
      subst (λ s. begins_with b'-' s ≡ false) e b,
    )

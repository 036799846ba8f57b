-- ===== src/NetworkDiag/Ip.antt =====
-- `net.ParseIP` of Go's standard library, as the test whether a text is an address: of version 4,
-- four decimal fields, or of version 6, at most eight groups around one `::`.
use myapptest.Common.{
  ℕ, zero, suc, ◌+◌, ◌-◌, ◌*◌, Bool, true, false, [], ◌∷◌, Text, if◌then◌else◌, ltb, is_digit, leb,
  nat_beq, any, is_empty, ◌&&◌, ◌||◌, not,
}

abbrev pub is_hex : ℕ → Bool
is_hex c = is_digit c || (leb b'a' c && leb c b'f') || (leb b'A' c && leb c b'F')

-- The decimal fields: `dots` were read before, and the field has `len` digits of the value `val`.
unfoldable pub ipv4_fields : (dots val len : ℕ) → Text → Bool
ipv4_fields dots val len [] = nat_beq dots 3 && not (nat_beq len 0)
ipv4_fields dots val len (c ∷ s) =
    let more = ipv4_fields dots (val * 10 + (c - b'0')) (suc len) s in
    let next = ipv4_fields (suc dots) 0 0 s in
    if is_digit c
    then not (nat_beq len 1 && nat_beq val 0) && leb (val * 10 + (c - b'0')) 255 && more
    else nat_beq c b'.' && not (nat_beq len 0) && not (nat_beq dots 3) && next

-- The number of hex digits at the start of a text, and what follows them.
unfoldable pub hex_count : Text → ℕ
hex_count [] = 0
hex_count (c ∷ s) = let n = hex_count s in if is_hex c then suc n else 0

unfoldable pub after_hex : Text → Text
after_hex [] = []
after_hex (c ∷ s) = let rest = after_hex s in if is_hex c then rest else c ∷ s

-- The groups, with room for `left` more; `short` tells whether `::` was read, which stands for one
-- group at least.
unfoldable pub ipv6_groups : (left : ℕ) (short : Bool) → Text → Bool
unfolding hex_count after_hex ipv4_fields
ipv6_groups zero short s = is_empty s && not short
ipv6_groups (suc left) short s =
    let go_on = ipv6_groups left in
    let digits = hex_count s in
    if nat_beq digits 0 || ltb 4 digits then false else elim (after_hex s) [
      | [] ↦ if short then ltb 0 left else nat_beq left 0
      | c ∷ [] ↦ false
      | c ∷ d ∷ rest ↦
          if nat_beq c b'.'
          then (if short then ltb 1 left else nat_beq left 1) && ipv4_fields 0 0 0 s
          else if not (nat_beq c b':')
          then false
          else if not (nat_beq d b':')
          then go_on short (d ∷ rest)
          else if short
          then false
          else if is_empty rest
          then ltb 0 left
          else go_on true rest
    ]

unfoldable pub parse_ipv6 : Text → Bool
unfolding ipv6_groups
parse_ipv6 s = if any (nat_beq b'%') s then false else elim s [
  | [] ↦ ipv6_groups 8 false []
  | c ∷ [] ↦ ipv6_groups 8 false (c ∷ [])
  | c ∷ d ∷ rest ↦
      if nat_beq c b':' && nat_beq d b':'
      then (if is_empty rest then true else ipv6_groups 8 true rest)
      else ipv6_groups 8 false (c ∷ d ∷ rest)
]

-- The first of `.`, `:` and `%` tells which kind of address `whole` may be.
unfoldable pub parse_kind : (whole s : Text) → Bool
unfolding parse_ipv6 ipv4_fields
parse_kind whole [] = false
parse_kind whole (c ∷ s) =
    let later = parse_kind whole s in
    if nat_beq c b'.'
    then ipv4_fields 0 0 0 whole
    else if nat_beq c b':'
    then parse_ipv6 whole
    else if nat_beq c b'%'
    then false
    else later

unfoldable pub parse_ip : Text → Bool
unfolding parse_kind
parse_ip s = parse_kind s s

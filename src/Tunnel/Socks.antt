-- ===== src/Tunnel/Socks.antt =====
-- The SOCKS5 side of a dynamic tunnel (`handleSocksConn`, `readSocksConnect`, `writeSocksReply` of
-- internal/tunnelmanager/manager.go). What a client sends is a list of bytes, and so is each
-- write. A host is kept as the bytes that came: the text that an IP address is dialled by is made
-- by the standard library. Whether the write of the greeting's answer succeeds, and which targets
-- the transport can dial, are arguments.
use myapptest.Common.{
  ℕ, zero, suc, ◌+◌, ◌*◌, Bool, Option, none, some, List, [], ◌∷◌, ◌++◌, nat_beq, not,
  if◌then◌else◌,
}

pub data Address : Type 0 where
  ipv4 ipv6 domain : List ℕ → Address

pub record Target : Type 0 where
  pub address : Address
  pub port : ℕ

-- `io.ReadFull` of a buffer of the given length.
unfoldable pub read_full : ℕ → List ℕ → Option (List ℕ × List ℕ)
read_full zero bytes = some ([], bytes)
read_full (suc n) [] = none
read_full (suc n) (b ∷ bytes) = elim (read_full n bytes) [
  | none ↦ none
  | some (read, rest) ↦ some (b ∷ read, rest)
]

-- What is read of the host: an address, too few bytes, or a kind that is not known.
pub data Host : Type 0 where
  address : Address → List ℕ → Host
  short unsupported : Host

abbrev pub host_of : (List ℕ → Address) → Option (List ℕ × List ℕ) → Host
host_of make none = Host.short
host_of make (some (bytes, rest)) = Host.address (make bytes) rest

-- The `case 0x03`: a length, and a name of that length.
unfoldable pub read_domain : List ℕ → Host
read_domain [] = Host.short
read_domain (n ∷ bytes) = host_of Address.domain (read_full n bytes)

-- The `switch` on `request[3]`.
unfoldable pub read_host : ℕ → List ℕ → Host
unfolding read_domain
read_host kind bytes =
    if nat_beq kind 1
    then host_of Address.ipv4 (read_full 4 bytes)
    else if nat_beq kind 3
    then read_domain bytes
    else if nat_beq kind 4
    then host_of Address.ipv6 (read_full 16 bytes)
    else Host.unsupported

-- The writes, and the target with what is left to read.
abbrev pub Answer : Type 0
Answer = List (List ℕ) × Option (Target × List ℕ)

abbrev pub write_socks_reply : ℕ → List ℕ
write_socks_reply reply = 5 ∷ reply ∷ 0 ∷ 1 ∷ 0 ∷ 0 ∷ 0 ∷ 0 ∷ 0 ∷ 0 ∷ []

abbrev pub no_authentication : List ℕ
no_authentication = 5 ∷ 0 ∷ []

-- The port, and the end of `readSocksConnect`.
unfoldable pub read_port : Address → List ℕ → Option (Target × List ℕ)
read_port a (high ∷ low ∷ rest) = some (record { address = a; port = high * 256 + low }, rest)
read_port a _ = none

abbrev pub answer_host : Host → Answer
answer_host (Host.address a rest) = (no_authentication ∷ [], read_port a rest)
answer_host Host.short = (no_authentication ∷ [], none)
answer_host Host.unsupported = (no_authentication ∷ write_socks_reply 8 ∷ [], none)

-- From the four bytes of the request on.
unfoldable pub read_request : List ℕ → Answer
unfolding read_host
read_request (version ∷ command ∷ reserved ∷ kind ∷ bytes) =
    if not (nat_beq version 5)
    then (no_authentication ∷ [], none)
    else if not (nat_beq command 1)
    then (no_authentication ∷ write_socks_reply 7 ∷ [], none)
    else answer_host (read_host kind bytes)
read_request _ = (no_authentication ∷ [], none)

unfoldable pub read_socks_connect : Bool → List ℕ → Answer
unfolding read_request
read_socks_connect can_write (version ∷ count ∷ bytes) =
    if not (nat_beq version 5) then ([], none) else elim (read_full count bytes) [
      | none ↦ ([], none)
      | some (methods, rest) ↦ if can_write then read_request rest else ([], none)
    ]
read_socks_connect can_write _ = ([], none)

-- The connection is closed, with an error event if the target cannot be dialled, or joined with
-- the target, to which the rest of what the client sends goes.
pub data Outcome : Type 0 where
  closed failed : Outcome
  proxied : Target → List ℕ → Outcome

abbrev pub dial_target : (Target → Bool) → Answer → List (List ℕ) × Outcome
dial_target can_dial (written, none) = (written, Outcome.closed)
dial_target can_dial (written, some (target, rest)) =
    if can_dial target
    then (written ++ write_socks_reply 0 ∷ [], Outcome.proxied target rest)
    else (written ++ write_socks_reply 5 ∷ [], Outcome.failed)

unfoldable pub handle_socks_conn : Bool → (Target → Bool) → List ℕ → List (List ℕ) × Outcome
unfolding read_socks_connect
handle_socks_conn can_write can_dial bytes =
    dial_target can_dial (read_socks_connect can_write bytes)

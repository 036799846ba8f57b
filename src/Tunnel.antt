-- ===== src/Tunnel.antt =====
-- internal/tunnelmanager/manager.go and internal/domain/tunnel.go: port forwarding over SSH. This
-- file has the request to start a tunnel and its check; `Socks` has the SOCKS5 handshake of a
-- dynamic tunnel, `Worker` the state of a running one, and `Stopping` the table of tunnels.
pub mod Request
pub mod Socks
pub mod Handshake
pub mod Accepted
pub mod Worker
pub mod Stopping
pub mod Closing
pub mod Stopped
mod Tests
mod WorkerTests
use myapptest.Common.{
  ℤ, pos, ltb_ℤ, Bool, true, false, String, Text, codes, trim_space, is_empty, ◌&&◌, ◌||◌, not,
  ◌==◌, list_eq, nat_eq, ◌⊎◌, inl, inr, if◌then◌else◌,
}

pub data TunnelType : Type 0 where
  local remote dynamic : TunnelType
  other : String → TunnelType

-- `StartTunnelRequest` less the secrets, which `Start` removes.
pub record StartRequest : Type 0 where
  pub server_id : ℤ
  pub profile_id : ℤ
  pub type : TunnelType
  pub name : Text
  pub bind_host : Text
  pub bind_port : ℤ
  pub target_host : Text
  pub target_port : ℤ
  pub remote_bind_host : Text
  pub remote_bind_port : ℤ
  pub confirm_public_bind : Bool

pub data StartError : Type 0 where
  local_port_invalid local_target_missing remote_port_invalid remote_target_missing : StartError
  socks_port_invalid type_invalid public_bind_requires_confirmation : StartError

abbrev pub default_host : Text → Text
default_host value = if is_empty value then codes "127.0.0.1" else value

abbrev pub default_tunnel_name : TunnelType → Text
default_tunnel_name TunnelType.remote = codes "远程转发"
default_tunnel_name TunnelType.dynamic = codes "动态 SOCKS5"
default_tunnel_name _ = codes "本地转发"

abbrev pub valid_port : ℤ → Bool
valid_port port = not (ltb_ℤ port (pos 1)) && not (ltb_ℤ (pos 65535) port)

-- What `normalizeStartRequest` does before its `switch`.
unfoldable pub fill : StartRequest → StartRequest
fill r =
    let name = trim_space r.name in
    record r {
      name = if is_empty name then default_tunnel_name r.type else name;
      bind_host = default_host (trim_space r.bind_host);
      target_host = trim_space r.target_host;
      remote_bind_host = default_host (trim_space r.remote_bind_host);
    }

-- The `switch` on the type.
unfoldable pub check : StartRequest → TunnelType → StartError ⊎ StartRequest
check r TunnelType.local =
    if not (valid_port r.bind_port)
    then inl StartError.local_port_invalid
    else if is_empty r.target_host || not (valid_port r.target_port)
    then inl StartError.local_target_missing
    else inr r
check r TunnelType.remote =
    if not (valid_port r.remote_bind_port)
    then inl StartError.remote_port_invalid
    else if is_empty r.target_host || not (valid_port r.target_port)
    then inl StartError.remote_target_missing
    else inr r
check r TunnelType.dynamic =
    if not (valid_port r.bind_port)
    then inl StartError.socks_port_invalid
    else inr (record r { target_host = codes ""; target_port = pos 0 })
check r (TunnelType.other _) = inl StartError.type_invalid

unfoldable pub normalize_start_request : StartRequest → StartError ⊎ StartRequest
unfolding fill check
normalize_start_request r = check (fill r) r.type

-- Every address, of version 4 or of version 6.
abbrev pub is_any_host : Text → Bool
is_any_host host = host == codes "0.0.0.0" || host == codes "::"

-- The host that the tunnel listens at.
abbrev pub listen_host : StartRequest → Text
listen_host r = elim r.type [ TunnelType.remote ↦ r.remote_bind_host | _ ↦ r.bind_host ]

unfoldable pub requires_public_bind : StartRequest → Bool
requires_public_bind r = is_any_host (listen_host r)

-- `Start` up to the first event: the request that the tunnel is made with, for a connection.
unfoldable pub admit : ℤ → StartRequest → StartError ⊎ StartRequest
unfolding normalize_start_request requires_public_bind
admit connection r = elim (normalize_start_request (record r { server_id = connection })) [
  | inl e ↦ inl e
  | inr n ↦
      if requires_public_bind n && not n.confirm_public_bind
      then inl StartError.public_bind_requires_confirmation
      else inr n
]

-- ===== src/Validation.antt =====
-- internal/domain/validation.go: the check of a connection before it is saved, and the name that
-- it is shown under. An error is `some`, and a nil one `none`; a result with an error is a sum.
pub mod Names
pub mod Checks
pub mod Accepted
mod Tests
use myapptest.Common.{
  ℤ, pos, int_eq, is_positive, ltb_ℤ, Bool, true, false, Option, none, some, String, ◌∷◌, ◌++◌,
  ◌==◌, ◌||◌, ◌&&◌, not, ◌⊎◌, inl, inr, if◌then◌else◌, any, nat_beq, Text, trim_space, is_empty,
  decimal,
}
use myapptest.Domain.{AuthType}

pub data PrivateKeySource : Type 0 where
  local_file key_vault : PrivateKeySource
  other : String → PrivateKeySource

pub data ConnectionMode : Type 0 where
  direct jump : ConnectionMode
  other : String → ConnectionMode

pub record SaveConnectionRequest : Type 0 where
  pub id : ℤ
  pub group_id : Option ℤ
  pub name : Text
  pub host : Text
  pub port : ℤ
  pub username : Text
  pub auth_type : AuthType
  pub private_key_source : PrivateKeySource
  pub private_key_path : Text
  pub key_vault_id : Option ℤ
  pub terminal_profile_id : Option String
  pub connection_mode : ConnectionMode
  pub jump_server_id : Option ℤ
  pub refresh_interval : ℤ

-- The errors, one for each message.
pub data ValidationError : Type 0 where
  host_required port_out_of_range username_required unsupported_auth_type : ValidationError
  jump_server_required jump_server_is_target invalid_connection_mode : ValidationError
  private_key_path_required key_vault_required unsupported_private_key_source : ValidationError
  unsupported_refresh_interval : ValidationError

-- `net.JoinHostPort` with `strconv.Itoa`: a host with a colon is put in brackets.
unfoldable pub join_host_port : Text → ℤ → Text
join_host_port host port =
    if any (nat_beq b':') host
    then b'[' ∷ host ++ b']' ∷ b':' ∷ decimal port
    else host ++ b':' ∷ decimal port

unfoldable pub normalize_server_display_name : Text → Text → ℤ → ValidationError ⊎ Text
normalize_server_display_name name host port =
    let trimmed_name = trim_space name in
    if is_empty (trim_space host)
    then inl ValidationError.host_required
    else if ltb_ℤ port (pos 1) || ltb_ℤ (pos 65535) port
    then inl ValidationError.port_out_of_range
    else if not (is_empty trimmed_name)
    then inr trimmed_name
    else inr (join_host_port (trim_space host) port)

-- The error of a result.
abbrev pub error_of : {A : Type 0} → ValidationError ⊎ A → Option ValidationError
error_of (inl e) = some e
error_of (inr _) = none

-- `if err != nil { return err }`, and then the rest.
abbrev pub or_else : Option ValidationError → Option ValidationError → Option ValidationError
or_else (some e) rest = some e
or_else none rest = rest

abbrev pub is_known_auth_type : AuthType → Bool
is_known_auth_type AuthType.password = true
is_known_auth_type AuthType.private_key = true
is_known_auth_type (AuthType.other _) = false

-- The `switch` on the connection mode, where the mode "" is `direct`.
unfoldable pub check_route : SaveConnectionRequest → ConnectionMode → Option ValidationError
check_route r ConnectionMode.direct = none
check_route r (ConnectionMode.other String.[]) = none
check_route r ConnectionMode.jump = elim r.jump_server_id [
  | none ↦ some ValidationError.jump_server_required
  | some server ↦
      if not (is_positive server)
      then some ValidationError.jump_server_required
      else if is_positive r.id && server == r.id
      then some ValidationError.jump_server_is_target
      else none
]
check_route r (ConnectionMode.other (String.◌∷◌ c s)) = some ValidationError.invalid_connection_mode

-- The `switch` on the source of a private key, where the source "" is `local_file`.
unfoldable pub check_key_source : SaveConnectionRequest → PrivateKeySource → Option ValidationError
check_key_source r PrivateKeySource.key_vault = elim r.key_vault_id [
  | none ↦ some ValidationError.key_vault_required
  | some id ↦ if is_positive id then none else some ValidationError.key_vault_required
]
check_key_source r (PrivateKeySource.other (String.◌∷◌ c s)) =
    some ValidationError.unsupported_private_key_source
check_key_source r _ =
    if is_empty (trim_space r.private_key_path)
    then some ValidationError.private_key_path_required
    else none

unfoldable pub check_key : SaveConnectionRequest → AuthType → Option ValidationError
unfolding check_key_source
check_key r AuthType.private_key = check_key_source r r.private_key_source
check_key r _ = none

unfoldable pub check_refresh_interval : ℤ → Option ValidationError
check_refresh_interval x =
    if not (x == pos 1) && not (x == pos 2) && not (x == pos 5)
    then some ValidationError.unsupported_refresh_interval
    else none

unfoldable pub validate_connection : SaveConnectionRequest → Option ValidationError
unfolding check_route check_key check_refresh_interval
validate_connection r = or_else (error_of (normalize_server_display_name r.name r.host r.port)) (
    if is_empty (trim_space r.username)
    then some ValidationError.username_required
    else if not (is_known_auth_type r.auth_type)
    then some ValidationError.unsupported_auth_type
    else or_else (check_route r r.connection_mode)
        (or_else (check_key r r.auth_type) (check_refresh_interval r.refresh_interval)))

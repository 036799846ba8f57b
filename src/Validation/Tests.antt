-- ===== src/Validation/Tests.antt =====
-- Requests and names at concrete inputs.
use myapptest.Common.{[], pos, none, some, ◌≡◌, ◌↔◌, refl, inr, codes, trim_space, digits, decimal}
use myapptest.Domain.{AuthType}
use myapptest.Validation.{
  SaveConnectionRequest, ConnectionMode, PrivateKeySource, ValidationError, validate_connection,
  normalize_server_display_name, join_host_port,
}
use myapptest.Validation.Accepted.{IsAcceptable, validate_connection-none}

abbrev request : SaveConnectionRequest
request = record {
  id = pos 4;
  group_id = none;
  name = codes " web ";
  host = codes "10.0.0.1";
  port = pos 22;
  username = codes "root";
  auth_type = AuthType.private_key;
  private_key_source = PrivateKeySource.key_vault;
  private_key_path = [];
  key_vault_id = some (pos 2);
  terminal_profile_id = none;
  connection_mode = ConnectionMode.jump;
  jump_server_id = some (pos 4);
  refresh_interval = pos 5;
}

jump_over_itself : validate_connection request ≡ some ValidationError.jump_server_is_target
unfolding validate_connection normalize_server_display_name trim_space
jump_over_itself = refl

validate_connection-none_example : (validate_connection request ≡ none) ↔ IsAcceptable request
validate_connection-none_example = validate_connection-none request

named : normalize_server_display_name (codes "  ") (codes " ::1 ") (pos 22) ≡ inr (codes "[::1]:22")
unfolding normalize_server_display_name join_host_port trim_space digits decimal
named = refl

-- ===== src/Domain.antt =====
-- The value types that the components pass to one another (internal/domain/models.go).
-- A Go string type with named constants is a data type: a constructor for each constant, and
-- `other` for any other string, which the zero value "" is.
use myapptest.Common.{ℤ, String, Bool, Option, Text}

pub data ConnectionStatus : Type 0 where
  offline connecting online reconnecting disconnecting auth_failed : ConnectionStatus
  timeout unreachable refused hostkey_mismatch key_error disconnected error : ConnectionStatus
  other : String → ConnectionStatus

pub data SftpStatus : Type 0 where
  offline connecting online error : SftpStatus
  other : String → SftpStatus

-- The codes of internal/connectionerror, those of `RouteErrorKind` among them.
pub data ErrorCode : Type 0 where
  auth_failed credential_required credential_unavailable passphrase_invalid : ErrorCode
  private_key_invalid dns_failed timeout refused unreachable : ErrorCode
  host_key_mismatch host_key_unknown handshake_failed algorithm_unsupported : ErrorCode
  connection_closed keepalive_failed unknown : ErrorCode
  jump_server_missing jump_connection_failed jump_auth_failed jump_host_key_failed : ErrorCode
  target_unreachable_through_jump target_auth_failed target_host_key_failed : ErrorCode
  other : String → ErrorCode

pub data AuthType : Type 0 where
  password private_key : AuthType
  other : String → AuthType

pub record ConnectionError : Type 0 where
  pub code : ErrorCode
  pub user_message : Text
  pub technical_message : Text
  pub retryable : Bool
  pub server_id : ℤ
  pub operation : String
  pub timestamp : String
  pub stage : String
  pub credential_server_id : ℤ
  pub credential_server_name : String
  pub credential_from_store : Bool
  pub expected_fingerprint : Text
  pub observed_fingerprint : Text

pub record ConnectionRuntimeState : Type 0 where
  pub connection_id : ℤ
  pub status : ConnectionStatus
  pub monitor_active : Bool
  pub terminal_active : Bool
  pub terminal_connecting : Bool
  pub sftp_active : Bool
  pub connecting : Bool
  pub has_active_session : Bool
  pub last_error : Option ConnectionError
  pub updated_at : String

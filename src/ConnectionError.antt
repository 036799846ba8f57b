-- ===== src/ConnectionError.antt =====
-- internal/connectionerror: which code and message an error gets, and which status a connection
-- shows for a code. `Chain` has the errors, and `Classify` the classifier.
pub mod Chain
pub mod Classify
pub mod Branches
pub mod HostKeys
pub mod Retrying
mod Tests
use myapptest.Domain.{ConnectionStatus, ErrorCode}

unfoldable pub status_for_code : ErrorCode → ConnectionStatus
status_for_code ErrorCode.auth_failed = ConnectionStatus.auth_failed
status_for_code ErrorCode.passphrase_invalid = ConnectionStatus.key_error
status_for_code ErrorCode.private_key_invalid = ConnectionStatus.key_error
status_for_code ErrorCode.timeout = ConnectionStatus.timeout
status_for_code ErrorCode.dns_failed = ConnectionStatus.unreachable
status_for_code ErrorCode.unreachable = ConnectionStatus.unreachable
status_for_code ErrorCode.refused = ConnectionStatus.refused
status_for_code ErrorCode.algorithm_unsupported = ConnectionStatus.error
status_for_code ErrorCode.handshake_failed = ConnectionStatus.error
status_for_code ErrorCode.host_key_mismatch = ConnectionStatus.hostkey_mismatch
status_for_code ErrorCode.host_key_unknown = ConnectionStatus.hostkey_mismatch
status_for_code ErrorCode.connection_closed = ConnectionStatus.disconnected
status_for_code ErrorCode.keepalive_failed = ConnectionStatus.disconnected
status_for_code ErrorCode.jump_auth_failed = ConnectionStatus.auth_failed
status_for_code ErrorCode.target_auth_failed = ConnectionStatus.auth_failed
status_for_code ErrorCode.jump_host_key_failed = ConnectionStatus.hostkey_mismatch
status_for_code ErrorCode.target_host_key_failed = ConnectionStatus.hostkey_mismatch
status_for_code ErrorCode.jump_server_missing = ConnectionStatus.error
status_for_code ErrorCode.jump_connection_failed = ConnectionStatus.unreachable
status_for_code ErrorCode.target_unreachable_through_jump = ConnectionStatus.unreachable
status_for_code _ = ConnectionStatus.error

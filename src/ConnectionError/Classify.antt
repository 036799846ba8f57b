-- ===== src/ConnectionError/Classify.antt =====
-- `Classify` (internal/connectionerror/classifier.go). An error that is nil is `none`; the time
-- of the call is an argument.
use myapptest.Common.{
  ℕ, ℤ, pos, Bool, true, false, Option, none, some, List, [], ◌∷◌, ◌||◌, not, if◌then◌else◌, String,
  Text, codes, any, map, contains_text, is_empty, trim_space, to_lower,
}
use myapptest.Domain.{AuthType, ErrorCode, ConnectionError}
use myapptest.ConnectionError.Chain.{
  CredentialCode, CredentialError, RouteError, Chain, GoError, as_route, as_host_key, as_credential,
  is_timeout, has_deadline, has_canceled, has_dns, has_number, has_errno,
}

-- The numbers that the platform gives to ECONNREFUSED, EHOSTUNREACH and ENETUNREACH.
pub record Errnos : Type 0 where
  pub refused : ℕ
  pub host_unreachable : ℕ
  pub network_unreachable : ℕ

-- What the classifier is called with: of the connection it reads the id and the authentication.
pub record Call : Type 0 where
  pub connection_id : ℤ
  pub auth_type : AuthType
  pub operation : String
  pub timestamp : String

abbrev pub text_of : Option GoError → Text
text_of none = []
text_of (some e) = e.text

-- The result before the error is looked at.
abbrev pub unknown_error : Option GoError → Call → ConnectionError
unknown_error err call = record {
  code = ErrorCode.unknown;
  user_message = codes "连接失败，请查看技术详情。";
  technical_message = text_of err;
  retryable = false;
  server_id = call.connection_id;
  operation = call.operation;
  timestamp = call.timestamp;
  stage = "";
  credential_server_id = pos 0;
  credential_server_name = "";
  credential_from_store = false;
  expected_fingerprint = [];
  observed_fingerprint = [];
}

-- `with`
abbrev pub with_code : ConnectionError → ErrorCode → Text → Bool → ConnectionError
with_code result code message retryable = record result {
  code = code;
  user_message = message;
  retryable = retryable;
}

abbrev is_private_key : AuthType → Bool
is_private_key AuthType.private_key = true
is_private_key _ = false

unfoldable pub authentication_required_message : AuthType → Text
authentication_required_message auth =
    if is_private_key auth then codes "需要输入 SSH 私钥口令" else codes "需要输入 SSH 密码"

unfoldable pub contains_any : Text → List Text → Bool
contains_any value candidates = any (λ (candidate : Text). contains_text candidate value) candidates

abbrev with_fingerprints : ConnectionError → Option (Text × Text) → ConnectionError
with_fingerprints result none = result
with_fingerprints result (some (expected, observed)) = record result {
  expected_fingerprint = expected;
  observed_fingerprint = observed;
}

-- Can a route error be tried again?
abbrev pub is_route_retryable : ErrorCode → Bool
is_route_retryable ErrorCode.jump_auth_failed = false
is_route_retryable ErrorCode.target_auth_failed = false
is_route_retryable ErrorCode.jump_host_key_failed = false
is_route_retryable ErrorCode.target_host_key_failed = false
is_route_retryable ErrorCode.jump_server_missing = false
is_route_retryable _ = true

unfoldable pub classify_route : ConnectionError → RouteError → Chain → ConnectionError
classify_route result route wrapped =
    with_fingerprints
      (record result {
        code = route.kind;
        user_message = route.user_message;
        stage = route.stage;
        credential_server_id = route.credential_server_id;
        credential_server_name = route.credential_server_name;
        retryable = is_route_retryable route.kind;
      })
      (as_host_key wrapped)

unfoldable pub classify_host_key : ConnectionError → Text → Text → ConnectionError
classify_host_key result expected observed =
    let found = with_fingerprints result (some (expected, observed)) in
    if is_empty expected
    then record found { code = ErrorCode.host_key_unknown; user_message = codes "服务器主机指纹尚未受信任。" }
    else record found {
      code = ErrorCode.host_key_mismatch;
      user_message = codes "服务器主机指纹与已保存记录不一致，连接已被阻止。";
    }

unfoldable pub classify_credential : ConnectionError → AuthType → CredentialError → ConnectionError
unfolding authentication_required_message
classify_credential result auth e = elim e.code [
  | CredentialCode.private_key_unavailable ↦ record result {
    code = ErrorCode.private_key_invalid;
    user_message =
        if not (is_empty (trim_space e.message)) then e.message else codes "私钥文件无效、格式不受支持或无法读取。";
  }
  | CredentialCode.private_key_invalid ↦ record result {
    code = ErrorCode.private_key_invalid;
    user_message = codes "私钥文件无效、格式不受支持或无法读取。";
  }
  | CredentialCode.credential_invalid ↦
      if is_private_key auth
      then record result {
        code = ErrorCode.passphrase_invalid;
        user_message = codes "私钥口令错误，无法解密私钥。";
      }
      else record result { code = ErrorCode.auth_failed; user_message = codes "用户名、密码或认证方式不正确。" }
  | CredentialCode.authentication_required ↦ record result {
    code = ErrorCode.credential_required;
    user_message = authentication_required_message auth;
  }
  | CredentialCode.credential_unavailable ↦ record result {
    code = ErrorCode.credential_unavailable;
    user_message = codes "系统凭据引用存在，但凭据库中的值不可用，请重新输入。";
  }
  | CredentialCode.other _ ↦ record result {
    code = ErrorCode.auth_failed;
    user_message = authentication_required_message auth;
  }
]

-- The `switch` on the text of the error in lower case.
unfoldable pub classify_text : ConnectionError → Text → ConnectionError
classify_text result message =
    if contains_any message (
      codes "unable to authenticate"
      ∷ codes "permission denied"
      ∷ codes "authentication failed"
      ∷ codes "no supported methods remain"
      ∷ [])
    then with_code result ErrorCode.auth_failed (codes "用户名、密码或认证方式不正确。") false
    else if contains_any message (
        codes "incorrect passphrase"
        ∷ codes "incorrect password"
        ∷ codes "decryption password incorrect"
        ∷ codes "private key passphrase"
        ∷ [])
    then with_code result ErrorCode.passphrase_invalid (codes "私钥口令错误，无法解密私钥。") false
    else if contains_any message (
        codes "parse private key"
        ∷ codes "read private key"
        ∷ codes "private key is invalid"
        ∷ codes "private key is unavailable"
        ∷ [])
    then with_code result ErrorCode.private_key_invalid (codes "私钥文件无效、格式不受支持或无法读取。") false
    else if contains_any message (codes "connection refused" ∷ [])
    then with_code result ErrorCode.refused (codes "目标服务器拒绝连接，请检查 SSH 端口和服务状态。") true
    else if contains_any message (
        codes "no route to host"
        ∷ codes "host is unreachable"
        ∷ codes "network is unreachable"
        ∷ [])
    then with_code result ErrorCode.unreachable (codes "无法到达服务器，请检查网络线路、路由或服务器是否在线。") true
    else if contains_any message
        (codes "i/o timeout" ∷ codes "operation timed out" ∷ codes "deadline exceeded" ∷ [])
    then with_code result ErrorCode.timeout (codes "连接服务器超时，请检查地址、端口、网络和防火墙。") true
    else if contains_any message (
        codes "no common algorithm"
        ∷ codes "no matching algorithm"
        ∷ codes "unsupported algorithm"
        ∷ codes "algorithm negotiation failed"
        ∷ [])
    then with_code result ErrorCode.algorithm_unsupported (codes "SSH 算法协商失败，服务器不支持当前客户端算法或协议。")
        true
    else if contains_any message (
        codes "ssh handshake"
        ∷ codes "handshake failed"
        ∷ codes "no common algorithm"
        ∷ codes "protocol error"
        ∷ codes "version exchange"
        ∷ [])
    then with_code result ErrorCode.handshake_failed (codes "SSH 握手失败，服务器可能不支持当前算法或协议。") true
    else if contains_any message (
        codes "connection reset"
        ∷ codes "broken pipe"
        ∷ codes "use of closed network connection"
        ∷ codes "connection closed"
        ∷ codes "unexpected eof"
        ∷ codes " eof"
        ∷ [])
    then with_code result ErrorCode.connection_closed (codes "SSH 连接已被远程服务器关闭。") true
    else result

-- What is left when the error is of the network or is known by its text alone.
unfoldable pub classify_network : Errnos → ConnectionError → GoError → ConnectionError
unfolding classify_text
classify_network errnos result e =
    let c = e.chain in
    let lower = map to_lower e.text in
    let refused = has_number errnos.refused c || has_errno 10061 c in
    let unreachable =
      has_number errnos.host_unreachable c
      || has_number errnos.network_unreachable c
      || has_errno 10051 c
      || has_errno 10065 c in
    if has_deadline c
    then with_code result ErrorCode.timeout (codes "连接服务器超时，请检查地址、端口、网络和防火墙。") true
    else if has_canceled c
    then with_code result ErrorCode.connection_closed (codes "SSH 连接已取消。") true
    else if contains_text (codes "ssh keepalive failed") lower
    then with_code result ErrorCode.keepalive_failed (codes "SSH 连接保活失败，连接已断开。") true
    else if has_dns c
    then with_code result ErrorCode.dns_failed (codes "无法解析服务器地址，请检查主机名或 DNS。") true
    else if refused
    then with_code result ErrorCode.refused (codes "目标服务器拒绝连接，请检查 SSH 端口和服务状态。") true
    else if unreachable
    then with_code result ErrorCode.unreachable (codes "无法到达服务器，请检查网络线路、路由或服务器是否在线。") true
    else if is_timeout c
    then with_code result ErrorCode.timeout (codes "连接服务器超时，请检查地址、端口、网络和防火墙。") true
    else classify_text result lower

-- `Classify` of an error that is not nil.
unfoldable pub classify_error : Errnos → GoError → Call → ConnectionError
unfolding classify_route classify_host_key classify_credential classify_network
classify_error errnos e call =
    let result = unknown_error (some e) call in
    elim (as_route e.chain) [
      | some (route, wrapped) ↦ classify_route result route wrapped
      | none ↦ elim (as_host_key e.chain) [
        | some (expected, observed) ↦ classify_host_key result expected observed
        | none ↦ elim (as_credential e.chain) [
          | some failure ↦ classify_credential result call.auth_type failure
          | none ↦ classify_network errnos result e
        ]
      ]
    ]

unfoldable pub classify : Errnos → Option GoError → Call → ConnectionError
unfolding classify_error
classify errnos none call = unknown_error none call
classify errnos (some e) call = classify_error errnos e call

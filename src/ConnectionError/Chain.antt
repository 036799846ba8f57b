-- ===== src/ConnectionError/Chain.antt =====
-- The errors that `Classify` takes apart (internal/connectionerror, internal/credential).
-- An error is the chain that `Unwrap` walks, outermost first: each layer is a type that the
-- classifier asks for, or any other. `errors.As` finds the first layer of a type, and `errors.Is`
-- finds whether one of them is a given error.
use myapptest.Common.{
  ℕ, ℤ, Bool, true, false, Option, none, some, List, [], ◌∷◌, ◌||◌, String, Text, any, nat_beq,
}
use myapptest.Domain.{ErrorCode}

-- `credential.Error`; a code is one of the five constants or any other string.
pub data CredentialCode : Type 0 where
  authentication_required credential_unavailable credential_invalid : CredentialCode
  private_key_unavailable private_key_invalid : CredentialCode
  other : String → CredentialCode

pub record CredentialError : Type 0 where
  pub code : CredentialCode
  pub message : Text

-- `RouteError` without the error that it wraps, which is the rest of the chain; its kind is the
-- code that it is shown with.
pub record RouteError : Type 0 where
  pub kind : ErrorCode
  pub stage : String
  pub credential_server_id : ℤ
  pub credential_server_name : String
  pub user_message : Text

-- What a layer is. `host_key` has the expected and the observed fingerprint; `path` and `syscall`
-- are `os.PathError` and `os.SyscallError`. `deadline_exceeded` and `canceled` are the errors of
-- `context`, and those of other packages whose method `Is` says that they are one of these.
pub data Kind : Type 0 where
  route : RouteError → Kind
  host_key : Text → Text → Kind
  credential : CredentialError → Kind
  deadline_exceeded canceled dns path syscall other : Kind
  errno : ℕ → Kind

-- A layer, with what its method `Timeout` says if it has one.
pub record Layer : Type 0 where
  pub kind : Kind
  pub timeout : Option Bool

abbrev pub Chain : Type 0
Chain = List Layer

-- An error that is not nil: its chain, and the text of its method `Error`.
pub record GoError : Type 0 where
  pub chain : Chain
  pub text : Text

-- `errors.As(err, &routeErr)`, with the chain of the error that it wraps.
unfoldable pub as_route : Chain → Option (RouteError × Chain)
as_route [] = none
as_route (l ∷ ls) = let rest = as_route ls in elim l.kind [ Kind.route r ↦ some (r, ls) | _ ↦ rest ]

-- `errors.As(err, &fingerprints)`: the expected and the observed one.
unfoldable pub as_host_key : Chain → Option (Text × Text)
as_host_key [] = none
as_host_key (l ∷ ls) =
    let rest = as_host_key ls in
    elim l.kind [ Kind.host_key expected observed ↦ some (expected, observed) | _ ↦ rest ]

-- `errors.As(err, &credentialErr)`
unfoldable pub as_credential : Chain → Option CredentialError
as_credential [] = none
as_credential (l ∷ ls) =
    let rest = as_credential ls in elim l.kind [ Kind.credential e ↦ some e | _ ↦ rest ]

-- `errors.As(err, &timeout) && timeout.Timeout()`
unfoldable pub is_timeout : Chain → Bool
is_timeout [] = false
is_timeout (l ∷ ls) = let rest = is_timeout ls in elim l.timeout [ some t ↦ t | none ↦ rest ]

abbrev is_errno : ℕ → Layer → Bool
is_errno n l = elim l.kind [ Kind.errno m ↦ nat_beq m n | _ ↦ false ]

abbrev is_deadline : Layer → Bool
is_deadline l = elim l.kind [ Kind.deadline_exceeded ↦ true | _ ↦ false ]

abbrev is_canceled : Layer → Bool
is_canceled l = elim l.kind [ Kind.canceled ↦ true | _ ↦ false ]

abbrev is_dns : Layer → Bool
is_dns l = elim l.kind [ Kind.dns ↦ true | _ ↦ false ]

-- `errors.Is(err, context.DeadlineExceeded)`, and so on.
abbrev pub has_deadline : Chain → Bool
has_deadline c = any is_deadline c

abbrev pub has_canceled : Chain → Bool
has_canceled c = any is_canceled c

abbrev pub has_dns : Chain → Bool
has_dns c = any is_dns c

abbrev pub has_number : ℕ → Chain → Bool
has_number n c = any (is_errno n) c

-- `errors.As(err, &pathErr) && errors.Is(pathErr.Err, value)`
unfoldable pub path_number : ℕ → Chain → Bool
path_number n [] = false
path_number n (l ∷ ls) =
    let rest = path_number n ls in elim l.kind [ Kind.path ↦ has_number n ls | _ ↦ rest ]

-- `errors.As(err, &syscallErr) && errors.Is(syscallErr.Err, value)`
unfoldable pub syscall_number : ℕ → Chain → Bool
syscall_number n [] = false
syscall_number n (l ∷ ls) =
    let rest = syscall_number n ls in elim l.kind [ Kind.syscall ↦ has_number n ls | _ ↦ rest ]

-- `errors.As(err, &errno) && errno == value`
unfoldable pub first_number : ℕ → Chain → Bool
first_number n [] = false
first_number n (l ∷ ls) =
    let rest = first_number n ls in elim l.kind [ Kind.errno m ↦ nat_beq m n | _ ↦ rest ]

-- `hasErrno`
unfoldable pub has_errno : ℕ → Chain → Bool
unfolding path_number syscall_number first_number
has_errno n c = path_number n c || syscall_number n c || first_number n c

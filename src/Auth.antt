-- ===== src/Auth.antt =====
-- src/auth/handler.rs, src/session/auth_state.rs and src/session/common.rs: AUTHINFO.
pub mod Users
pub mod Session
use nntp_proxy.Base.{
  ℕ, Bool, true, false, not, ◌&&◌, ◌||◌, List, [], ◌∷◌, ◌++◌, Option, none, some, if◌then◌else◌,
  Bytes, codes, length, is_empty, bytes_eq, Result, ok, err, ◌>>=◌,
}
use nntp_proxy.Protocol.Metadata.{ResponseMetadata}
use nntp_proxy.Command.{AuthAction}

abbrev pub auth_required : Bytes
auth_required = codes "381 Password required\r\n"

abbrev pub auth_accepted : Bytes
auth_accepted = codes "281 Authentication accepted\r\n"

abbrev pub auth_failed : Bytes
auth_failed = codes "481 Authentication failed\r\n"

abbrev pub auth_out_of_sequence : Bytes
auth_out_of_sequence = codes "482 Authentication commands issued out of sequence\r\n"

abbrev pub auth_already_authenticated : Bytes
auth_already_authenticated = codes "502 Already authenticated\r\n"

abbrev pub auth_unknown_subcommand : Bytes
auth_unknown_subcommand = codes "501 Syntax error in command\r\n"

pub data AuthError : Type 0 where
  -- A username or password is empty once it is trimmed.
  empty_username empty_password : AuthError
  io : AuthError

-- A validated username and its password.
pub record Credentials : Type 0 where
  pub username : Bytes
  pub password : Bytes

-- The `HashMap` by username, the newest entry first.
pub record AuthHandler : Type 0 where
  pub users : List (Bytes × Credentials)

-- `HashMap::get`
abbrev pub get : List (Bytes × Credentials) → Bytes → Option Credentials
get [] key = none
get ((k, c) ∷ users) key = if bytes_eq k key then some c else get users key

-- `SecretPassword::matches`
abbrev pub matches : Credentials → Bytes → Bool
matches credentials candidate = bytes_eq credentials.password candidate

-- `AuthHandler::is_enabled`
pub is_enabled : AuthHandler → Bool
is_enabled h = not (is_empty h.users)

-- `str::trim`, which the `nutype` attributes `sanitize(trim), validate(not_empty)` call.
module _ (trim : Bytes → Bytes) where
  -- `Username::try_new`
  pub username_try_new : Bytes → Result AuthError Bytes
  username_try_new u = if is_empty (trim u) then err AuthError.empty_username else ok (trim u)

  -- `Password::try_new`
  pub password_try_new : Bytes → Result AuthError Bytes
  password_try_new p = if is_empty (trim p) then err AuthError.empty_password else ok (trim p)

  -- One round of the loop, and the body of `new`.
  pub add_user :
      List (Bytes × Credentials) → Bytes → Bytes → Result AuthError (List (Bytes × Credentials))
  unfolding username_try_new password_try_new
  add_user users u p = username_try_new u >>= λ username. password_try_new p >>= λ password.
      ok ((username, record { username = username; password = password }) ∷ users)

  pub new : Option Bytes → Option Bytes → Result AuthError AuthHandler
  unfolding add_user
  new (some u) (some p) = add_user [] u p >>= λ users. ok (record { users = users })
  new _ _ = ok (record { users = [] })

  pub users_from :
      List (Bytes × Credentials)
      → List (Bytes × Bytes)
      → Result AuthError (List (Bytes × Credentials))
  unfolding add_user
  users_from users [] = ok users
  users_from users ((u, p) ∷ rest) = add_user users u p >>= λ more. users_from more rest

  pub with_users : List (Bytes × Bytes) → Result AuthError AuthHandler
  unfolding users_from
  with_users user_list = users_from [] user_list >>= λ users. ok (record { users = users })

  pub validate_credentials_bytes : AuthHandler → Bytes → Bytes → Bool
  unfolding username_try_new
  validate_credentials_bytes h username password =
      if is_empty h.users then true else elim (username_try_new username) [
        | err e ↦ false
        | ok name ↦ elim (get h.users name) [
          | none ↦ false
          | some credentials ↦ matches credentials password
        ]
      ]

pub data AuthenticationTransition : Type 0 where
  newly_authenticated already_authenticated : AuthenticationTransition

-- `AuthState`: the write-once identity.
pub record AuthState : Type 0 where
  pub identity : Option Bytes

unfoldable pub is_authenticated : AuthState → Bool
is_authenticated s = elim s.identity [ none ↦ false | some u ↦ true ]

pub is_authenticated_or_skipped : AuthState → Bool → Bool
unfolding is_authenticated
is_authenticated_or_skipped s skip_check = skip_check || is_authenticated s

pub mark_authenticated : AuthState → Bytes → AuthState × AuthenticationTransition
mark_authenticated s username = elim s.identity [
  | none ↦ (record { identity = some username }, AuthenticationTransition.newly_authenticated)
  | some u ↦ (s, AuthenticationTransition.already_authenticated)
]

pub data ClientAuthState : Type 0 where
  anonymous : ClientAuthState
  awaiting_password authenticated : Bytes → ClientAuthState

pub data ClientAuthEvent : Type 0 where
  user password : Bytes → ClientAuthEvent
  unknown : ClientAuthEvent

pub data AuthReducerResult : Type 0 where
  password_required accepted rejected out_of_sequence already_authenticated : AuthReducerResult
  unknown : AuthReducerResult

abbrev pub username_of : ClientAuthState → Option Bytes
username_of ClientAuthState.anonymous = none
username_of (ClientAuthState.awaiting_password u) = some u
username_of (ClientAuthState.authenticated u) = some u

pub decide : ClientAuthState → ClientAuthEvent → Bool → ClientAuthState × AuthReducerResult
decide (ClientAuthState.authenticated u) event valid =
    (ClientAuthState.authenticated u, AuthReducerResult.already_authenticated)
decide ClientAuthState.anonymous (ClientAuthEvent.user u) valid =
    (ClientAuthState.awaiting_password u, AuthReducerResult.password_required)
decide (ClientAuthState.awaiting_password v) (ClientAuthEvent.user u) valid =
    (ClientAuthState.awaiting_password u, AuthReducerResult.password_required)
decide ClientAuthState.anonymous (ClientAuthEvent.password p) valid =
    (ClientAuthState.anonymous, AuthReducerResult.out_of_sequence)
decide (ClientAuthState.awaiting_password u) (ClientAuthEvent.password p) valid =
    if valid
    then (ClientAuthState.authenticated u, AuthReducerResult.accepted)
    else (ClientAuthState.awaiting_password u, AuthReducerResult.rejected)
decide ClientAuthState.anonymous ClientAuthEvent.unknown valid =
    (ClientAuthState.anonymous, AuthReducerResult.unknown)
decide (ClientAuthState.awaiting_password u) ClientAuthEvent.unknown valid =
    (ClientAuthState.awaiting_password u, AuthReducerResult.unknown)

-- `auth_response`: the status and the text.
pub auth_response : AuthReducerResult → ℕ × Bytes
auth_response AuthReducerResult.password_required = (381, auth_required)
auth_response AuthReducerResult.accepted = (281, auth_accepted)
auth_response AuthReducerResult.rejected = (481, auth_failed)
auth_response AuthReducerResult.out_of_sequence = (482, auth_out_of_sequence)
auth_response AuthReducerResult.already_authenticated = (502, auth_already_authenticated)
auth_response AuthReducerResult.unknown = (501, auth_unknown_subcommand)

pub data AuthResult : Type 0 where
  authenticated not_authenticated : ℕ → ResponseMetadata → AuthResult

-- What a session holds while it authenticates, and what its client has been sent.
pub record AuthSession : Type 0 where
  pub client : ClientAuthState
  pub state : AuthState
  pub sent : List Bytes

local_response_metadata : ℕ → Bytes → ResponseMetadata
local_response_metadata status response = record {
  status = record { value = status };
  wire_len = length response;
}

pub is_accepted : AuthReducerResult → Bool
is_accepted AuthReducerResult.accepted = true
is_accepted _ = false

-- The result that carries the metadata of the response.
pub auth_result : AuthReducerResult → AuthResult
unfolding auth_response local_response_metadata is_accepted
auth_result result =
    let (status, response) = auth_response result in
    if is_accepted result
    then AuthResult.authenticated (length response) (local_response_metadata status response)
    else AuthResult.not_authenticated (length response) (local_response_metadata status response)

-- The write of the response, and the commit behind it. `writes` is whether the client's writer
-- takes the bytes.
pub commit :
    Bool
    → AuthSession
    → ClientAuthState × AuthReducerResult
    → AuthSession × Result AuthError AuthResult
unfolding auth_result
commit false s (next, result) = (s, err AuthError.io)
commit true s (next, result) = (
  record { client = next; state = s.state; sent = s.sent ++ ((auth_response result).1 ∷ []) },
  ok (auth_result result),
)

pub already : Bool → AuthSession → AuthSession × Result AuthError AuthResult
unfolding local_response_metadata
already false s = (s, err AuthError.io)
already true s = (
  record { client = s.client; state = s.state; sent = s.sent ++ (auth_already_authenticated ∷ []) },
  ok (
      AuthResult.not_authenticated (length auth_already_authenticated)
        (local_response_metadata 502 auth_already_authenticated)),
)

module _ (trim : Bytes → Bytes) where
  pub event_of : AuthAction → Result AuthError ClientAuthEvent
  unfolding username_try_new
  event_of (AuthAction.request_password u) =
      username_try_new trim u >>= λ name. ok (ClientAuthEvent.user name)
  event_of (AuthAction.validate_and_respond p) = ok (ClientAuthEvent.password p)
  event_of AuthAction.unknown_subcommand = ok ClientAuthEvent.unknown

  pub credentials_valid : AuthHandler → ClientAuthState → ClientAuthEvent → Bool
  unfolding validate_credentials_bytes
  credentials_valid h client (ClientAuthEvent.password p) = elim (username_of client) [
    | none ↦ false
    | some u ↦ validate_credentials_bytes trim h u p
  ]
  credentials_valid h client _ = false

  pub handle_auth_command :
      AuthHandler → Bool → AuthAction → AuthSession → AuthSession × Result AuthError AuthResult
  unfolding event_of credentials_valid decide commit already is_authenticated
  handle_auth_command h writes action s =
      if is_authenticated s.state then already writes s else elim (event_of action) [
        | err e ↦ (s, err e)
        | ok event ↦ commit writes s (decide s.client event (credentials_valid h s.client event))
      ]

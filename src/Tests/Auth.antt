-- ===== src/Tests/Auth.antt =====
-- src/auth/handler.rs, src/session/auth_state.rs and src/session/common.rs at concrete commands.
use nntp_proxy.Base.{
  ◌≡◌, refl, Bool, true, false, not, ◌&&◌, ◌||◌, List, [], ◌∷◌, none, some, Bytes, codes, is_empty,
  bytes_eq, ok, err, All,
}
use nntp_proxy.Command.{AuthAction}
use nntp_proxy.Auth.{
  AuthHandler, AuthError, AuthSession, ClientAuthState, is_enabled, with_users,
  validate_credentials_bytes, handle_auth_command,
}
use nntp_proxy.Auth.Users.{configured, is_password, with_users_validates}
use nntp_proxy.Auth.Session.{
  fresh, auth_run, Presents, Proven, auth_run_identity, handle_auth_command_failed_write,
}

-- Names and passwords without blanks are trimmed to themselves.
abbrev trim : Bytes → Bytes
trim bs = bs

abbrev handler : AuthHandler
handler = record {
  users = (codes "al", record { username = codes "al"; password = codes "pw" }) ∷ [];
}

abbrev commands : List (Bool × AuthAction)
commands =
    (true, AuthAction.validate_and_respond (codes "no"))
    ∷ (true, AuthAction.request_password (codes "al"))
    ∷ (true, AuthAction.validate_and_respond (codes "pw"))
    ∷ []

-- The property of passwords in the example: to be one of those in the commands.
abbrev Shown : Bytes → Type 0
Shown p = (bytes_eq p (codes "no") || bytes_eq p (codes "pw")) ≡ true

shown : All (Presents trim handler Shown) commands
unfolding bytes_eq
shown = (refl, (tt, (refl, tt)))

published_al : (auth_run trim handler commands fresh).state.identity ≡ some (codes "al")
unfolding auth_run bytes_eq
published_al = refl

auth_run_identity_example : Proven trim handler Shown (codes "al")
auth_run_identity_example =
    auth_run_identity trim handler Shown commands (codes "al") shown published_al

handle_auth_command_failed_write_example :
    ((handle_auth_command trim handler false (AuthAction.request_password (codes "al")) fresh).0
      ≡ fresh)
    × (e : AuthError) × ((handle_auth_command trim handler false
          (AuthAction.request_password (codes "al"))
          fresh).1
        ≡ err e)
handle_auth_command_failed_write_example =
    handle_auth_command_failed_write trim handler (AuthAction.request_password (codes "al")) fresh

abbrev known : AuthSession
known = record {
  client = ClientAuthState.authenticated (codes "al");
  state = record { identity = some (codes "al") };
  sent = [];
}

abbrev entries : List (Bytes × Bytes)
entries = (codes "al", codes "pw") ∷ (codes "al", codes "new") ∷ []

with_users_validates_example :
    (h : AuthHandler) × (with_users trim entries ≡ ok h)
    × (is_enabled h ≡ not (is_empty entries))
    × ((u p : Bytes)
        → validate_credentials_bytes trim h u p ≡ (
            is_empty entries
            || not (is_empty (trim u))
              && is_password trim (configured trim entries (trim u) none) p))
with_users_validates_example = with_users_validates trim entries refl

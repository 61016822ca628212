-- ===== src/Auth/Session.antt =====
-- src/session/common.rs: what AUTHINFO commands do to a session.
use nntp_proxy.Base.{
  ◌≡◌, refl, ap, subst, ◌∙◌, inl, inr, Bool, true, false, List, [], ◌∷◌, ◌++◌, Option, none, some,
  arith, Bytes, is_empty, All, Result, ok, err, Bool-cases, if_split,
}
use nntp_proxy.Command.{AuthAction}
use nntp_proxy.Auth.{
  AuthHandler, AuthError, AuthSession, AuthResult, ClientAuthState, ClientAuthEvent, decide, commit,
  already, auth_already_authenticated, event_of, credentials_valid, handle_auth_command,
  is_authenticated, mark_authenticated, validate_credentials_bytes, username_of, auth_result,
  auth_response, is_accepted, username_try_new,
}

abbrev pub fresh : AuthSession
fresh = record { client = ClientAuthState.anonymous; state = record { identity = none }; sent = [] }

-- `on_authentication_success` publishes the name that the client authenticated with.
abbrev pub publish : AuthSession → AuthSession
publish s = elim (username_of s.client) [
  | none ↦ s
  | some u ↦ record { client = s.client; state = (mark_authenticated s.state u).0; sent = s.sent }
]

abbrev settle : AuthSession → Result AuthError AuthResult → AuthSession
settle s (ok (AuthResult.authenticated n r)) = publish s
settle s (ok (AuthResult.not_authenticated n r)) = s
settle s (err e) = s

module _ (trim : Bytes → Bytes) (h : AuthHandler) where
  -- The arm of the session loops for an AUTHINFO command: handle it, and publish on success.
  unfoldable pub auth_step : Bool × AuthAction → AuthSession → AuthSession
  unfolding handle_auth_command mark_authenticated
  auth_step (writes, action) s =
      let (next, result) = handle_auth_command trim h writes action s in settle next result

  unfoldable pub auth_run : List (Bool × AuthAction) → AuthSession → AuthSession
  unfolding auth_step
  auth_run [] s = s
  auth_run (e ∷ es) s = auth_run es (auth_step e s)

  abbrev pub Presents : (Bytes → Type 0) → Bool × AuthAction → Type 0
  Presents P (writes, AuthAction.validate_and_respond p) = P p
  Presents P (writes, AuthAction.request_password u) = Unit
  Presents P (writes, AuthAction.unknown_subcommand) = Unit

  -- A name whose password was presented.
  pub record Proven (P : Bytes → Type 0) (u : Bytes) : Type 0 where
    pub password : Bytes
    pub presented : P password
    pub valid : validate_credentials_bytes trim h u password ≡ true

  abbrev ClientProven : (Bytes → Type 0) → ClientAuthState → Type 0
  ClientProven P (ClientAuthState.authenticated u) = Proven P u
  ClientProven P ClientAuthState.anonymous = Unit
  ClientProven P (ClientAuthState.awaiting_password u) = Unit

  abbrev IdentityProven : (Bytes → Type 0) → Option Bytes → Type 0
  IdentityProven P none = Unit
  IdentityProven P (some u) = Proven P u

  record IsProven (P : Bytes → Type 0) (s : AuthSession) : Type 0 where
    client : ClientProven P s.client
    identity : IdentityProven P s.state.identity

  published :
      (P : Bytes → Type 0) (u : Bytes) (o : Option Bytes)
      → Proven P u
      → IdentityProven P o
      → IdentityProven P (mark_authenticated (record { identity = o }) u).0.identity
  unfolding mark_authenticated
  published P u none p k = p
  published P u (some v) p k = k

  -- Whatever is decided, what is committed and published is proven.
  settle-IsProven :
      (P : Bytes → Type 0) (writes valid : Bool) (c : ClientAuthState) (e : ClientAuthEvent)
      (o : Option Bytes) (sent : List Bytes)
      → ClientProven P c
      → IdentityProven P o
      → ((u p : Bytes)
          → c ≡ ClientAuthState.awaiting_password u
          → e ≡ ClientAuthEvent.password p
          → valid ≡ true
          → Proven P u)
      → (let s : AuthSession = record {
        client = c;
        state = record { identity = o };
        sent = sent;
      } in
          IsProven P
            (settle (commit writes s (decide c e valid)).0 (commit writes s (decide c e valid)).1))
  unfolding decide commit auth_result auth_response is_accepted
  settle-IsProven P false valid c e o sent k i f = record { client = k; identity = i }
  settle-IsProven P true valid (ClientAuthState.authenticated u) e o sent k i f = record {
    client = k;
    identity = i;
  }
  settle-IsProven P true valid ClientAuthState.anonymous (ClientAuthEvent.user u) o sent k i f =
      record { client = tt; identity = i }
  settle-IsProven P true valid ClientAuthState.anonymous (ClientAuthEvent.password p) o sent k i f =
      record { client = tt; identity = i }
  settle-IsProven P true valid ClientAuthState.anonymous ClientAuthEvent.unknown o sent k i f =
      record { client = tt; identity = i }
  settle-IsProven P true valid (ClientAuthState.awaiting_password v) (ClientAuthEvent.user u) o sent
        k i f =
      record { client = tt; identity = i }
  settle-IsProven P true valid (ClientAuthState.awaiting_password v) ClientAuthEvent.unknown o sent
        k i f =
      record { client = tt; identity = i }
  settle-IsProven P true false (ClientAuthState.awaiting_password u) (ClientAuthEvent.password p) o
        sent k i f =
      record { client = tt; identity = i }
  settle-IsProven P true true (ClientAuthState.awaiting_password u) (ClientAuthEvent.password p) o
        sent k i f =
      let proof = f u p refl refl refl in
      record { client = proof; identity = published P u o proof i }

  already-IsProven :
      (P : Bytes → Type 0) (writes : Bool) (s : AuthSession)
      → IsProven P s
      → IsProven P (settle (already writes s).0 (already writes s).1)
  unfolding already
  already-IsProven P true s k = record { client = k.client; identity = k.identity }
  already-IsProven P false s k = k

  event_presents :
      (P : Bytes → Type 0) (writes : Bool) (a : AuthAction) (p : Bytes)
      → Presents P (writes, a)
      → event_of trim a ≡ ok (ClientAuthEvent.password p)
      → P p
  unfolding event_of username_try_new
  event_presents P writes (AuthAction.request_password u) p k e = ground (arith, e)
  event_presents P writes (AuthAction.validate_and_respond q) p k e = subst P (ground (arith, e)) k
  event_presents P writes AuthAction.unknown_subcommand p k e = ground (arith, e)

  valid_of :
      (c : ClientAuthState) (e : ClientAuthEvent) (u p : Bytes)
      → c ≡ ClientAuthState.awaiting_password u
      → e ≡ ClientAuthEvent.password p
      → credentials_valid trim h c e ≡ true
      → validate_credentials_bytes trim h u p ≡ true
  unfolding credentials_valid
  valid_of c e u p f g v = rw (f, g) at v

  auth_step-IsProven :
      (P : Bytes → Type 0) (writes : Bool) (a : AuthAction) (s : AuthSession)
      → Presents P (writes, a)
      → IsProven P s
      → IsProven P (auth_step (writes, a) s)
  unfolding auth_step handle_auth_command
  auth_step-IsProven P writes a s q k =
      if_split (λ (r : AuthSession × Result AuthError AuthResult). IsProven P (settle r.0 r.1))
        (is_authenticated s.state) (λ _. already-IsProven P writes s k)
        (λ _. go (event_of trim a) refl)
    where
      go :
          (o : Result AuthError ClientAuthEvent)
          → event_of trim a ≡ o
          → (let r : AuthSession × Result AuthError AuthResult = elim o [
            | err e ↦ (s, err e)
            | ok event ↦
                commit writes s (decide s.client event (credentials_valid trim h s.client event))
          ] in
              IsProven P (settle r.0 r.1))
      go (err x) e = k
      go (ok event) e =
          settle-IsProven P writes (credentials_valid trim h s.client event) s.client event
            s.state.identity s.sent k.client k.identity
            (λ u p f g v. record {
              password = p;
              presented = event_presents P writes a p q (e ∙ ap ok g);
              valid = valid_of s.client event u p f g v;
            })

  auth_run-IsProven :
      (P : Bytes → Type 0) (events : List (Bool × AuthAction)) (s : AuthSession)
      → All (Presents P) events
      → IsProven P s
      → IsProven P (auth_run events s)
  unfolding auth_run
  auth_run-IsProven P [] s q k = k
  auth_run-IsProven P ((writes, a) ∷ es) s (q, qs) k =
      auth_run-IsProven P es (auth_step (writes, a) s) qs (auth_step-IsProven P writes a s q k)

  -- Whatever AUTHINFO commands a client sends, and whichever of the responses can be written, a
  -- name is published only when a password was presented that is valid for the name; `P` is any
  -- property that all presented passwords have.
  pub auth_run_identity :
      (P : Bytes → Type 0) (events : List (Bool × AuthAction)) (u : Bytes)
      → All (Presents P) events
      → (auth_run events fresh).state.identity ≡ some u
      → Proven P u
  auth_run_identity P events u q e =
      let k = auth_run-IsProven P events fresh q (record { client = tt; identity = tt }) in
      subst (IdentityProven P) e k.identity

  -- When the response cannot be written, the command ends in an error and changes nothing.
  pub handle_auth_command_failed_write :
      (a : AuthAction) (s : AuthSession)
      → ((handle_auth_command trim h false a s).0 ≡ s)
        × (e : AuthError) × ((handle_auth_command trim h false a s).1 ≡ err e)
  unfolding handle_auth_command already commit event_of username_try_new
  handle_auth_command_failed_write (AuthAction.request_password u) s =
      elim (Bool-cases (is_authenticated s.state)) [
        | inl e ↦ (ground (arith, e), AuthError.io, ground (arith, e))
        | inr e ↦ elim (Bool-cases (is_empty (trim u))) [
          | inl f ↦ (ground (arith, e, f), AuthError.empty_username, ground (arith, e, f))
          | inr f ↦ (ground (arith, e, f), AuthError.io, ground (arith, e, f))
        ]
      ]
  handle_auth_command_failed_write (AuthAction.validate_and_respond p) s =
      (ground arith, AuthError.io, ground arith)
  handle_auth_command_failed_write AuthAction.unknown_subcommand s =
      (ground arith, AuthError.io, ground arith)

  -- Once a name is published, an AUTHINFO command whose response can be written changes neither
  -- the name nor the client's state, and is answered with the refusal of a second authentication.
  pub auth_step_once :
      (a : AuthAction) (s : AuthSession)
      → is_authenticated s.state ≡ true
      → auth_step (true, a) s ≡ record {
        client = s.client;
        state = s.state;
        sent = s.sent ++ (auth_already_authenticated ∷ []);
      }
  unfolding auth_step handle_auth_command already
  auth_step_once a s e = rw e refl

-- ===== src/Auth/Users.antt =====
-- src/auth/handler.rs: which credentials a handler accepts.
use nntp_proxy.Base.{
  ◌≡◌, refl, ap, sym, ◌∙◌, inl, inr, Bool, true, false, not, ◌&&◌, ◌||◌, List, [], ◌∷◌, Option,
  none, some, arith, if◌then◌else◌, Bytes, is_empty, bytes_eq, any, ok, err, Bool-cases,
}
use nntp_proxy.Auth.{
  AuthHandler, AuthError, Credentials, get, is_enabled, username_try_new, password_try_new,
  add_user, users_from, with_users, validate_credentials_bytes,
}

module _ (trim : Bytes → Bytes) where
  -- The password of the last entry of the list for a trimmed username.
  pub configured : List (Bytes × Bytes) → Bytes → Option Bytes → Option Bytes
  configured [] key found = found
  configured ((u, p) ∷ rest) key found =
      configured rest key (if bytes_eq (trim u) key then some (trim p) else found)

  abbrev pub password_of : Option Credentials → Option Bytes
  password_of none = none
  password_of (some c) = some c.password

  abbrev pub is_password : Option Bytes → Bytes → Bool
  is_password none candidate = false
  is_password (some p) candidate = bytes_eq p candidate

  -- An entry that is not accepted.
  abbrev pub is_invalid : Bytes × Bytes → Bool
  is_invalid (u, p) = is_empty (trim u) || is_empty (trim p)

  add_user_lem :
      (users : List (Bytes × Credentials)) (u p : Bytes)
      → is_invalid (u, p) ≡ false
      → add_user trim users u p
        ≡ ok ((trim u, record { username = trim u; password = trim p }) ∷ users)
  unfolding add_user username_try_new password_try_new
  add_user_lem users u p h = ground (arith, h)

  add_user_invalid :
      (users : List (Bytes × Credentials)) (u p : Bytes)
      → is_invalid (u, p) ≡ true
      → (e : AuthError) × (add_user trim users u p ≡ err e)
  unfolding add_user username_try_new password_try_new
  add_user_invalid users u p h = elim (Bool-cases (is_empty (trim u))) [
    | inl e ↦ (AuthError.empty_username, ground (arith, e))
    | inr e ↦ (AuthError.empty_password, ground (arith, e, h))
  ]

  -- What the loop makes of a list that has no invalid entry.
  record Loaded (users : List (Bytes × Credentials)) (entries : List (Bytes × Bytes)) : Type 0 where
    result : List (Bytes × Credentials)
    loads : users_from trim users entries ≡ ok result
    looks_up :
        (key : Bytes)
        → password_of (get result key) ≡ configured entries key (password_of (get users key))
    filled : is_empty result ≡ (is_empty users && is_empty entries)

  users_from-Loaded :
      (users : List (Bytes × Credentials)) (entries : List (Bytes × Bytes))
      → any is_invalid entries ≡ false
      → Loaded users entries
  unfolding users_from configured
  users_from-Loaded users [] h = record {
    result = users;
    loads = refl;
    looks_up = λ key. refl;
    filled = ground arith;
  }
  users_from-Loaded users ((u, p) ∷ rest) h =
      let c : Credentials = record { username = trim u; password = trim p } in
      let l = users_from-Loaded ((trim u, c) ∷ users) rest (ground (arith, h)) in
      record {
        result = l.result;
        loads = rw (add_user_lem users u p (ground (arith, h))) l.loads;
        looks_up = λ key. l.looks_up key ∙ ap (configured rest key) (step key c);
        filled = ground (arith, l.filled);
      }
    where
      step :
          (key : Bytes) (c : Credentials)
          → password_of (if bytes_eq (trim u) key then some c else get users key)
            ≡ (if bytes_eq (trim u) key then some c.password else password_of (get users key))
      step key c = ground arith

  users_from_invalid :
      (users : List (Bytes × Credentials)) (entries : List (Bytes × Bytes))
      → any is_invalid entries ≡ true
      → (e : AuthError) × (users_from trim users entries ≡ err e)
  unfolding users_from
  users_from_invalid users [] h = cc
  users_from_invalid users ((u, p) ∷ rest) h = elim (Bool-cases (is_invalid (u, p))) [
    | inl e ↦ let (x, f) = add_user_invalid users u p e in (x, rw f refl)
    | inr e ↦
        let (x, f) =
          users_from_invalid ((trim u, record { username = trim u; password = trim p }) ∷ users)
            rest (ground (arith, h, e)) in
        (x, rw (add_user_lem users u p e) f)
  ]

  validate-get :
      (h : AuthHandler) (u p : Bytes)
      → is_empty h.users ≡ false
      → validate_credentials_bytes trim h u p
        ≡ (not (is_empty (trim u)) && is_password (password_of (get h.users (trim u))) p)
  unfolding validate_credentials_bytes username_try_new
  validate-get h u p e = ground (arith, e)

  -- A list without an empty name or password makes a handler, which is enabled if the list is not
  -- empty. It accepts all credentials for an empty list, and otherwise exactly the password of
  -- the last entry for the name, with the blanks around the name and the configured password cut
  -- off.
  pub with_users_validates :
      (entries : List (Bytes × Bytes))
      → any is_invalid entries ≡ false
      → (h : AuthHandler) × (with_users trim entries ≡ ok h)
        × (is_enabled h ≡ not (is_empty entries))
        × ((u p : Bytes)
            → validate_credentials_bytes trim h u p ≡ (
                is_empty entries
                || not (is_empty (trim u)) && is_password (configured entries (trim u) none) p))
  unfolding with_users is_enabled
  with_users_validates entries h =
      let l = users_from-Loaded [] entries h in
      let handler : AuthHandler = record { users = l.result } in
      (
        handler,
        rw l.loads refl,
        ap not l.filled,
        λ u p. elim (Bool-cases (is_empty entries)) [
          | inl e ↦ open_to_all handler u p (l.filled ∙ e) ∙ sym (ground (arith, e))
          | inr e ↦
              validate-get handler u p (l.filled ∙ e)
              ∙ ap (λ o. not (is_empty (trim u)) && is_password o p) (l.looks_up (trim u))
              ∙ sym (ground (arith, e))
        ],
      )
    where
      open_to_all :
          (h : AuthHandler) (u p : Bytes)
          → is_empty h.users ≡ true
          → validate_credentials_bytes trim h u p ≡ true
      open_to_all h u p e = unfold validate_credentials_bytes in ground (arith, e)

  -- A list with a name or password that is empty once the blanks are cut off makes no handler.
  pub with_users_refuses :
      (entries : List (Bytes × Bytes))
      → any is_invalid entries ≡ true
      → (e : AuthError) × (with_users trim entries ≡ err e)
  unfolding with_users
  with_users_refuses entries h = let (e, f) = users_from_invalid [] entries h in (e, rw f refl)

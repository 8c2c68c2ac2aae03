-- ===== src/Auth/Login.antt =====
-- `synchronizeLocalUser`, `login` and `logout` (api/src/auth/service.ts). `login` is in two parts, before and after its
-- awaits. `verify` is `argon2.verify`, of a hash and a
-- password; a new hash, ids and tokens are arguments.
use cryptotracker.Base.{
  ℕ, suc, ◌+◌, ◌-◌, ◌*◌, ◌/◌, max, ltb, leb, ◌==◌, Bool, false, ◌&&◌, not, Option, none, some, List,
  [], ◌∷◌, ◌++◌, map, filter, find?, get_or_else, if◌then◌else◌,
}
use cryptotracker.Base.Codes.{Text, codes, same_codes}
use cryptotracker.Base.TextMaps.{get, set, delete}
use cryptotracker.Auth.Cidr.{is_empty, normalize_ip_address}
use cryptotracker.Auth.Records.{
  local, AuthenticatedIdentity, UserRow, SessionRow, LoginFailureState, Verdict, denied, success,
  local_login, logout_action, AuditRow, AuthError, login_invalid, AuthConfig, Request, AuthState,
  normalize_username, has_user_id, has_session_id, audit,
}

abbrev pub named : Text → UserRow → Bool
named username user = same_codes user.username username

abbrev pub has_id : Text → UserRow → Bool
has_id id user = same_codes user.id id

-- `password_hash ? await argon2.verify(password_hash, password) : false`
unfoldable pub password_matches : (Text → Text → Bool) → Option Text → Text → Bool
password_matches verify none password = false
password_matches verify (some hash) password = not (is_empty hash) && verify hash password

abbrev pub new_user : Text → Text → Text → ℕ → UserRow
new_user id username hash now = record {
  id = id;
  username = username;
  password_hash = some hash;
  session_version = 0;
  updated_at_ms = now;
}

-- The update of the transaction that changes a password.
abbrev pub change_password : Text → Text → ℕ → UserRow → UserRow
change_password id hash now user =
    if has_id id user
    then record user {
      password_hash = some hash;
      session_version = suc user.session_version;
      updated_at_ms = now;
    }
    else user

unfoldable pub replace_password : Text → Text → ℕ → AuthState → AuthState
replace_password id hash now s = record s {
  users = map (change_password id hash now) s.users;
  sessions = filter (λ session. not (has_user_id id session)) s.sessions;
}

-- `req.socket.remoteAddress ?? 'unknown'`
abbrev pub source_of : Request → Text
source_of req = get_or_else req.remote_address (codes "unknown")

unfoldable pub failure_key : (Text → ℕ) → Request → Text → Text
unfolding normalize_ip_address
failure_key is_ip req username = normalize_ip_address is_ip (source_of req) ++ b':' ∷ username

-- The seconds of `Retry-After`, while a key is blocked.
unfoldable pub blocked_for : ℕ → Option LoginFailureState → Option ℕ
blocked_for now none = none
blocked_for now (some previous) =
    if ltb now previous.blocked_until_ms
    then some (max 1 ((previous.blocked_until_ms - now + 999) / 1000))
    else none

-- A block that is over is forgotten.
unfoldable pub forget_block :
    Text → List (Text × LoginFailureState) → List (Text × LoginFailureState)
unfolding get delete
forget_block key failures = elim (get key failures) [
  | none ↦ failures
  | some previous ↦ if previous.blocked_until_ms == 0 then failures else delete key failures
]

-- `this.loginFailures.get(failureKey)?.failures ?? 0`
abbrev pub failures_of : Option LoginFailureState → ℕ
failures_of none = 0
failures_of (some previous) = previous.failures

abbrev pub next_entry : ℕ → ℕ → LoginFailureState
next_entry now failures = record {
  failures = suc failures;
  blocked_until_ms = if leb 10 (suc failures) then now + 10000 else 0;
}

-- One more failure of a key.
unfoldable pub count_failure :
    ℕ → Text → List (Text × LoginFailureState) → List (Text × LoginFailureState)
unfolding get set
count_failure now key known = set key (next_entry now (failures_of (get key known))) known

abbrev pub login_row : ℕ → Request → Option Text → Text → Verdict → AuditRow
login_row now req username target result = record {
  occurred_at_ms = now;
  username = username;
  auth_method = local;
  source_ip = req.remote_address;
  action = local_login;
  target_identifier = some target;
  result = result;
}

unfoldable pub denied_login : ℕ → Request → Text → Text → AuthState → AuthState
unfolding count_failure
denied_login now req key normalized s =
    audit
      (login_row now req (if is_empty normalized then none else some normalized) normalized denied)
      (record s { login_failures = count_failure now key s.login_failures })

pub data LoginResult : Type 0 where
  failed : AuthError → LoginResult
  logged_in : Text → Text → ℕ → LoginResult  -- user name, CSRF token and expiry

module _ (config : AuthConfig) where
  abbrev pub new_session : Text → Text → UserRow → Request → ℕ → SessionRow
  new_session id csrf_token user req now = record {
    id = id;
    user_id = user.id;
    csrf_token = csrf_token;
    session_version = user.session_version;
    created_at_ms = now;
    expires_at_ms = now + config.session_ttl_minutes * 60000;
    source_ip = req.remote_address;
    user_agent = req.user_agent;
  }

  unfoldable pub open_session : Text → Text → ℕ → Request → Text → UserRow → AuthState → AuthState
  unfolding delete
  open_session id csrf_token now req key user s =
      audit (login_row now req (some user.username) user.username success) (record s {
        login_failures = delete key s.login_failures;
        sessions =
            filter (λ session. not (has_session_id id session)) s.sessions
            ++ new_session id csrf_token user req now ∷ [];
      })

module _ (verify : Text → Text → Bool) (config : AuthConfig) where
  unfoldable pub synchronize_local_user : Text → Text → ℕ → AuthState → AuthState
  unfolding normalize_username password_matches replace_password
  synchronize_local_user new_id new_hash now s =
      let username = normalize_username config.local_username in
      if not config.local_enabled then s else elim (find? (named username) s.users) [
        | none ↦ record s {
          users = s.users ++ new_user new_id username new_hash now ∷ [];
          local_user_id = some new_id;
        }
        | some existing ↦
            let known = record s { local_user_id = some existing.id } in
            if password_matches verify existing.password_hash config.local_password
            then known
            else replace_password existing.id new_hash now known
      ]

  -- What the query and the check of the password give at the moment of the query: the user of the name, where local
  -- logins are enabled and the password is right.
  unfoldable pub verified_user : Text → Text → AuthState → Option UserRow
  unfolding password_matches
  verified_user normalized password s = elim (find? (named normalized) s.users) [
    | none ↦ none
    | some user ↦
        if config.local_enabled && password_matches verify user.password_hash password
        then some user
        else none
  ]

-- `login` up to its first await: the seconds of the throttle, or none where the attempt goes on.
unfoldable pub begin_login : (Text → ℕ) → ℕ → Request → Text → AuthState → Option ℕ × AuthState
unfolding normalize_username failure_key blocked_for forget_block get
begin_login is_ip now req username s =
    let key = failure_key is_ip req (normalize_username username) in
    elim (blocked_for now (get key s.login_failures)) [
      | some seconds ↦ (some seconds, s)
      | none ↦ (none, record s { login_failures = forget_block key s.login_failures })
    ]

-- `login` after the awaits of the query and of `argon2.verify`, during which other requests run.
unfoldable pub end_login :
    AuthConfig
    → (Text → ℕ)
    → Text
    → Text
    → ℕ
    → Request
    → Text
    → Option UserRow
    → AuthState
    → LoginResult × AuthState
unfolding normalize_username failure_key denied_login open_session
end_login config is_ip id csrf_token now req username none s = (
  failed login_invalid,
  denied_login now req (failure_key is_ip req (normalize_username username))
      (normalize_username username) s,
)
end_login config is_ip id csrf_token now req username (some user) s = (
  logged_in user.username csrf_token (now + config.session_ttl_minutes * 60000),
  open_session config id csrf_token now req (failure_key is_ip req (normalize_username username))
      user s,
)

unfoldable pub logout : ℕ → Request → AuthenticatedIdentity → AuthState → AuthState
logout now req identity s =
    audit
      (record {
        occurred_at_ms = now;
        username = some identity.username;
        auth_method = identity.auth_method;
        source_ip = req.remote_address;
        action = logout_action;
        target_identifier = identity.session_id;
        result = success;
      })
      (elim identity.session_id [
        | none ↦ s
        | some id ↦ if is_empty id then s else record s {
          sessions = filter (λ session. not (has_session_id id session)) s.sessions;
        }
      ])

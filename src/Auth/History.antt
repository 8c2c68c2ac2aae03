-- ===== src/Auth/History.antt =====
-- The histories of the service, and what they keep (api/src/auth/service.ts).
use mathlib.Core.List.{Memᴰ}
use cryptotracker.Base.{ℕ, Bool, Option, none, List, [], ◌∷◌, All}
use cryptotracker.Base.Codes.{Text}
use cryptotracker.Base.TextMaps.{get}
use cryptotracker.Auth.Records.{
  AuthenticatedIdentity, UserRow, SessionRow, AuthConfig, Request, AuthState,
}
use cryptotracker.Auth.Login.{
  LoginResult, failed, logged_in, synchronize_local_user, begin_login, end_login, logout,
}
use cryptotracker.Auth.Authenticate.{Claims, purge_expired_sessions, authenticate}
use cryptotracker.Auth.Throttle.{IsCounted}

abbrev pub no_state : AuthState
no_state = record {
  users = [];
  sessions = [];
  audit_log = [];
  login_failures = [];
  local_user_id = none;
}

-- A session that a login handed out: its id, its CSRF token and its expiry.
abbrev pub Issue : Type 0
Issue = Text × Text × ℕ

abbrev pub issue : Text → LoginResult → List Issue → List Issue
issue id (failed error) issued = issued
issue id (logged_in username csrf_token expires) issued = (id, csrf_token, expires) ∷ issued

module _ (verify : Text → Text → Bool) (config : AuthConfig) (is_ip : Text → ℕ)
    (csrf_token : Text → ℕ → Text) (same_token : Text → Text → Bool)
    (jwt_verify : Text → Option Claims) where
  -- The states that the operations lead to from empty tables, with what the logins have handed out. A login is two steps,
  -- between which all others may come, with whatever the check of the password gave.
  pub data Reach : List Issue → AuthState → Type 0 where
    start : Reach [] no_state
    synchronized :
        {issued : List Issue} {s : AuthState}
        → Reach issued s
        → (id hash : Text) (now : ℕ)
        → Reach issued (synchronize_local_user verify config id hash now s)
    began :
        {issued : List Issue} {s : AuthState}
        → Reach issued s
        → (now : ℕ) (req : Request) (username : Text)
        → Reach issued (begin_login is_ip now req username s).1
    ended :
        {issued : List Issue} {s : AuthState}
        → Reach issued s
        → (id csrf : Text) (now : ℕ) (req : Request) (username : Text) (user : Option UserRow)
        → Reach
            (issue id (end_login config is_ip id csrf now req username user s).0 issued)
            (end_login config is_ip id csrf now req username user s).1
    logged_out :
        {issued : List Issue} {s : AuthState}
        → Reach issued s
        → (now : ℕ) (req : Request) (identity : AuthenticatedIdentity)
        → Reach issued (logout now req identity s)
    authenticated :
        {issued : List Issue} {s : AuthState}
        → Reach issued s
        → (now : ℕ) (req : Request)
        → Reach issued (authenticate csrf_token config is_ip same_token jwt_verify now req s).1
    purged :
        {issued : List Issue} {s : AuthState}
        → Reach issued s
        → (now : ℕ) → Reach issued (purge_expired_sessions now s)

-- Every stored session was handed out as it is stored, and every entry of failures blocks exactly from the limit on.
abbrev pub IsIssued : List Issue → SessionRow → Type 0
IsIssued issued session = Memᴰ (session.id, session.csrf_token, session.expires_at_ms) issued

pub record IsSound (issued : List Issue) (s : AuthState) : Type 0 where
  pub handed_out : All (IsIssued issued) s.sessions
  pub counted : (key : Text) → IsCounted (get key s.login_failures)

-- ===== src/Auth/Records.antt =====
-- The rows, the memory and the configuration of `AuthService` (api/src/auth/service.ts). Texts are their code units.
use cryptotracker.Base.{ℕ, Bool, false, Option, none, some, List, ◌∷◌, map, filter, not}
use cryptotracker.Base.Codes.{Text, same_codes, trim, lower}
use cryptotracker.Auth.Cidr.{CidrRule, is_empty}

pub data AuthMethod : Type 0 where
  local : AuthMethod
  header : AuthMethod
  api_key : AuthMethod

pub data Role : Type 0 where
  read : Role
  readwrite : Role

pub record AuthenticatedIdentity : Type 0 where
  pub username : Text
  pub groups : List Text
  pub auth_method : AuthMethod
  pub user_id : Option Text
  pub session_id : Option Text
  pub csrf_token : Text
  pub role : Role

pub record UserRow : Type 0 where
  pub id : Text
  pub username : Text
  pub password_hash : Option Text
  pub session_version : ℕ
  pub updated_at_ms : ℕ

pub record SessionRow : Type 0 where
  pub id : Text
  pub user_id : Text
  pub csrf_token : Text
  pub session_version : ℕ
  pub created_at_ms : ℕ
  pub expires_at_ms : ℕ
  pub source_ip : Option Text
  pub user_agent : Option Text

pub record LoginFailureState : Type 0 where
  pub failures : ℕ
  pub blocked_until_ms : ℕ

pub data Verdict : Type 0 where
  denied : Verdict
  accepted : Verdict
  success : Verdict

pub data Action : Type 0 where
  local_login : Action
  logout_action : Action
  header_spoof : Action
  header_identity : Action

pub record AuditRow : Type 0 where
  pub occurred_at_ms : ℕ
  pub username : Option Text
  pub auth_method : AuthMethod
  pub source_ip : Option Text
  pub action : Action
  pub target_identifier : Option Text
  pub result : Verdict

pub data AuthError : Type 0 where
  login_throttled : ℕ → AuthError
  login_invalid : AuthError
  header_untrusted : AuthError
  signed_identity_invalid : AuthError
  forbidden : AuthError
  origin_invalid : AuthError
  csrf_invalid : AuthError

pub record ApiKey : Type 0 where
  pub name : Text
  pub key : Text
  pub role : Role

pub record AuthConfig : Type 0 where
  pub local_enabled : Bool
  pub local_username : Text
  pub local_password : Text
  pub session_ttl_minutes : ℕ
  pub header_enabled : Bool
  pub trusted_cidrs : List CidrRule
  pub signed_identity_enabled : Bool
  pub clock_skew_seconds : ℕ
  pub max_token_ttl_seconds : ℕ
  pub groups_separator : ℕ
  pub allowed_users : List Text
  pub allowed_groups : List Text
  pub api_key_enabled : Bool
  pub api_keys : List ApiKey
  pub expected_origin : Text  -- `new URL(publicBaseUrl).origin`

-- What a request brings: the peer's address, the session cookie, and the values of the headers that are read.
pub record Request : Type 0 where
  pub remote_address : Option Text
  pub user_agent : Option Text
  pub session_cookie : Option Text
  pub username_header : Option Text
  pub groups_header : Option Text
  pub signed_identity_header : Option Text
  pub api_key_header : Option Text
  pub bearer_token : Option Text  -- the group of `/^Bearer\s+(.+)$/i` in `authorization`
  pub origin : Option Text
  pub csrf_header : Option Text

-- The tables and the memory of the service.
pub record AuthState : Type 0 where
  pub users : List UserRow
  pub sessions : List SessionRow
  pub audit_log : List AuditRow
  pub login_failures : List (Text × LoginFailureState)
  pub local_user_id : Option Text

unfoldable pub normalize_username : Text → Text
unfolding trim lower
normalize_username username = map lower (trim username)

-- The texts that `normalizeSet` keeps; the order does not matter.
unfoldable pub normalize_set : List Text → List Text
unfolding normalize_username
normalize_set values = filter (λ value. not (is_empty value)) (map normalize_username values)

-- A text in a Boolean position.
abbrev pub given : Option Text → Bool
given none = false
given (some text) = not (is_empty text)

abbrev pub has_user_id : Text → SessionRow → Bool
has_user_id id session = same_codes session.user_id id

abbrev pub has_session_id : Text → SessionRow → Bool
has_session_id id session = same_codes session.id id

-- `this.audit`: one more row of the audit log.
abbrev pub audit : AuditRow → AuthState → AuthState
audit row s = record s { audit_log = row ∷ s.audit_log }

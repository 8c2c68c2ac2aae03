-- ===== src/Auth/Authenticate.antt =====
-- `authenticate` with its three methods, and `purgeExpiredSessions` (api/src/auth/service.ts). `is_ip` is Node's `isIP`;
-- `jwt_verify` is `jwtVerify` of jose, none where it throws; `same_token` is the comparison of two SHA-256 digests.
use cryptotracker.Base.{
  ℕ, ◌+◌, ◌-◌, ◌/◌, ltb, leb, ◌==◌, Bool, false, ◌&&◌, ◌||◌, not, Option, none, some, List, [], ◌∷◌,
  ◌++◌, map, filter, find?, get_or_else, any, if◌then◌else◌,
}
use cryptotracker.Base.Codes.{Text, codes, same_codes, split, lower}
use cryptotracker.Auth.Cidr.{is_empty, normalize_ip_address, is_ip_in_cidrs}
use cryptotracker.Auth.Records.{
  local, header, api_key, Role, read, readwrite, AuthenticatedIdentity, UserRow, SessionRow,
  Verdict, denied, accepted, Action, header_spoof, header_identity, AuditRow, AuthError,
  header_untrusted, signed_identity_invalid, forbidden, ApiKey, AuthConfig, Request, AuthState,
  normalize_username, normalize_set, given, has_session_id, audit,
}
use cryptotracker.Auth.Login.{has_id}

-- What a method comes to: no identity, an identity, or an error.
pub data Outcome : Type 0 where
  absent : Outcome
  identified : AuthenticatedIdentity → Outcome
  refused : AuthError → Outcome

-- The claims of a verified token; `preferred_username ?? sub ?? ''`, and no groups where they are no array.
pub record Claims : Type 0 where
  pub issued_at : Option ℕ
  pub expires_at : Option ℕ
  pub username : Text
  pub groups : List Text

-- Number(row.expires_at_ms) <= now, or another version than the user's.
unfoldable pub is_stale : ℕ → SessionRow → UserRow → Bool
is_stale now session user =
    leb session.expires_at_ms now || not (session.session_version == user.session_version)

abbrev pub without_session : Text → AuthState → AuthState
without_session id s = record s {
  sessions = filter (λ session. not (has_session_id id session)) s.sessions;
}

abbrev pub session_identity : SessionRow → UserRow → AuthenticatedIdentity
session_identity session user = record {
  username = user.username;
  groups = [];
  auth_method = local;
  user_id = some session.user_id;
  session_id = some session.id;
  csrf_token = session.csrf_token;
  role = readwrite;
}

-- The row of the query that joins a session with its user.
unfoldable pub joined : Text → AuthState → Option (SessionRow × UserRow)
joined id s = elim (find? (has_session_id id) s.sessions) [
  | none ↦ none
  | some session ↦ elim (find? (has_id session.user_id) s.users) [
    | none ↦ none
    | some user ↦ some (session, user)
  ]
]

-- The outcome for the row of the query.
unfoldable pub session_outcome :
    ℕ → Text → AuthState → Option (SessionRow × UserRow) → Outcome × AuthState
unfolding is_stale
session_outcome now id s none = (absent, without_session id s)
session_outcome now id s (some (session, user)) =
    if is_stale now session user
    then (absent, without_session id s)
    else (identified (session_identity session user), s)

unfoldable pub authenticate_session : ℕ → Request → AuthState → Outcome × AuthState
unfolding joined session_outcome
authenticate_session now req s = elim req.session_cookie [
  | none ↦ (absent, s)
  | some id ↦ if is_empty id then (absent, s) else session_outcome now id s (joined id s)
]

unfoldable pub purge_expired_sessions : ℕ → AuthState → AuthState
purge_expired_sessions now s = record s {
  sessions = filter (λ session. ltb now session.expires_at_ms) s.sessions;
}

-- `headerToken ?? bearerToken ?? null`
abbrev pub supplied_key : Request → Option Text
supplied_key req = elim req.api_key_header [ some token ↦ some token | none ↦ req.bearer_token ]

abbrev pub role_text : Role → Text
role_text read = codes "read"
role_text readwrite = codes "readwrite"

abbrev pub key_identity : ApiKey → AuthenticatedIdentity
key_identity entry = record {
  username = entry.name;
  groups = (codes "api:" ++ role_text entry.role) ∷ [];
  auth_method = api_key;
  user_id = none;
  session_id = none;
  csrf_token = [];
  role = entry.role;
}

abbrev pub key_outcome : Option ApiKey → Outcome
key_outcome none = refused forbidden
key_outcome (some entry) = identified (key_identity entry)

unfoldable pub authenticate_api_key : (Text → Text → Bool) → AuthConfig → Request → Outcome
authenticate_api_key same_token config req = elim (supplied_key req) [
  | none ↦ absent
  | some supplied ↦
      if not config.api_key_enabled || is_empty supplied
      then absent
      else key_outcome (find? (λ (entry : ApiKey). same_token supplied entry.key) config.api_keys)
]

-- `username` of the allowed users, or a group of the allowed groups.
unfoldable pub header_allowed : AuthConfig → Text → List Text → Bool
unfolding normalize_set lower
header_allowed config username groups =
    any (λ allowed. same_codes allowed username) (normalize_set config.allowed_users)
    || any
        (λ group.
          any (λ allowed. same_codes allowed (map lower group))
            (normalize_set config.allowed_groups))
        groups

unfoldable pub direct_peer_trusted : (Text → ℕ) → AuthConfig → Request → Bool
unfolding normalize_ip_address is_ip_in_cidrs
direct_peer_trusted is_ip config req =
    is_ip_in_cidrs is_ip (normalize_ip_address is_ip (get_or_else req.remote_address []))
      config.trusted_cidrs

unfoldable pub reserved_headers_present : Request → Bool
reserved_headers_present req =
    given req.username_header || given req.groups_header || given req.signed_identity_header

abbrev pub identity_row : ℕ → Request → Option Text → Action → Verdict → AuditRow
identity_row now req username action result = record {
  occurred_at_ms = now;
  username = username;
  auth_method = header;
  source_ip = req.remote_address;
  action = action;
  target_identifier = username;
  result = result;
}

-- The lifetime that a token may have.
unfoldable pub lifetime_valid : AuthConfig → ℕ → Claims → Bool
lifetime_valid config now claims = elim claims.issued_at [
  | none ↦ false
  | some issued ↦ elim claims.expires_at [
    | none ↦ false
    | some expires ↦
        ltb issued expires
        && leb (expires - issued) config.max_token_ttl_seconds
        && leb issued (now / 1000 + config.clock_skew_seconds)
  ]
]

-- The user name and groups that the headers claim; none where there are none, and an error for a bad token.
pub data Claimed : Type 0 where
  nothing : Claimed
  invalid : Claimed
  claimed : Text → List Text → Claimed

unfoldable pub claimed_identity : (Text → Option Claims) → AuthConfig → ℕ → Request → Claimed
unfolding lifetime_valid normalize_username normalize_set split
claimed_identity jwt_verify config now req =
    if config.signed_identity_enabled
    then (elim req.signed_identity_header [
      | none ↦ nothing
      | some token ↦ if is_empty token then nothing else elim (jwt_verify token) [
        | none ↦ invalid
        | some claims ↦
            if lifetime_valid config now claims
            then claimed (normalize_username claims.username) (normalize_set claims.groups)
            else invalid
      ]
    ])
    else elim req.username_header [
      | none ↦ nothing
      | some value ↦
          if is_empty value
          then nothing
          else claimed (normalize_username value)
              (normalize_set (split config.groups_separator (get_or_else req.groups_header [])))
    ]

module _ (csrf_token : Text → ℕ → Text) (config : AuthConfig) where
  abbrev pub header_identity_of : ℕ → Text → List Text → AuthenticatedIdentity
  header_identity_of now username groups = record {
    username = username;
    groups = groups;
    auth_method = header;
    user_id = none;
    session_id = none;
    csrf_token = csrf_token username (now + 3600000);
    role = readwrite;
  }

  -- The end of `authenticateHeader`, for a claimed identity.
  unfoldable pub admit : ℕ → Request → Text → List Text → AuthState → Outcome × AuthState
  unfolding header_allowed
  admit now req username groups s =
      if is_empty username || not (header_allowed config username groups)
      then (
        refused forbidden,
        audit
            (identity_row now req (if is_empty username then none else some username)
              header_identity denied)
            s,
      )
      else (
        identified (header_identity_of now username groups),
        audit (identity_row now req (some username) header_identity accepted) s,
      )

  unfoldable pub header_outcome : ℕ → Request → AuthState → Claimed → Outcome × AuthState
  unfolding admit
  header_outcome now req s nothing = (absent, s)
  header_outcome now req s invalid = (refused signed_identity_invalid, s)
  header_outcome now req s (claimed username groups) = admit now req username groups s

  unfoldable pub authenticate_header :
      (Text → ℕ) → (Text → Option Claims) → ℕ → Request → AuthState → Outcome × AuthState
  unfolding direct_peer_trusted reserved_headers_present claimed_identity header_outcome
  authenticate_header is_ip jwt_verify now req s =
      if not config.header_enabled
      then (absent, s)
      else if not (direct_peer_trusted is_ip config req)
      then if reserved_headers_present req
        then (refused header_untrusted, audit (identity_row now req none header_spoof denied) s)
        else (absent, s)
      else header_outcome now req s (claimed_identity jwt_verify config now req)

  unfoldable pub authenticate :
      (Text → ℕ)
      → (Text → Text → Bool)
      → (Text → Option Claims)
      → ℕ
      → Request
      → AuthState
      → Outcome × AuthState
  unfolding authenticate_api_key authenticate_header authenticate_session
  authenticate is_ip same_token jwt_verify now req s =
      elim (authenticate_api_key same_token config req) [
        | identified identity ↦ (identified identity, s)
        | refused error ↦ (refused error, s)
        | absent ↦
            let (outcome, t) = authenticate_header is_ip jwt_verify now req s in
            elim outcome [ absent ↦ authenticate_session now req t | other ↦ (other, t) ]
      ]

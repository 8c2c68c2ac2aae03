-- ===== src/Auth/Entitled.antt =====
-- Whom the keys and the sessions let in (api/src/auth/service.ts).
use mathlib.Core.List.{Memᴰ}
use cryptotracker.Base.{
  ℕ, ◌≡◌, ◌<◌, refl, sym, ap, subst, ◌∙◌, Bool, true, false, ◌||◌, not, Option, none, some,
  some_injective, find?, find?-Memᴰ, inl, inr, Bool-cases, Option-cases, arith,
}
use cryptotracker.Base.Codes.{Text}
use cryptotracker.Auth.Cidr.{is_empty}
use cryptotracker.Auth.Records.{
  AuthenticatedIdentity, UserRow, SessionRow, ApiKey, AuthConfig, Request, AuthState,
  has_session_id,
}
use cryptotracker.Auth.Login.{has_id}
use cryptotracker.Auth.Authenticate.{
  Outcome, absent, identified, refused, is_stale, joined, session_identity, authenticate_session,
  supplied_key, key_identity, authenticate_api_key,
}

abbrev pub identity_of : Outcome → Option AuthenticatedIdentity
identity_of absent = none
identity_of (identified identity) = some identity
identity_of (refused error) = none

-- A key that is configured and agrees with the one that is supplied.
pub record ByKey (same_token : Text → Text → Bool) (config : AuthConfig) (req : Request)
    (identity : AuthenticatedIdentity) : Type 0 where
  pub entry : ApiKey
  pub supplied : Text
  pub enabled : config.api_key_enabled ≡ true
  pub sent : supplied_key req ≡ some supplied
  pub configured : Memᴰ entry config.api_keys
  pub agrees : same_token supplied entry.key ≡ true
  pub is_entry : identity ≡ key_identity entry

-- A stored session of the cookie that has not expired and is of its user's present version.
pub record BySession (now : ℕ) (req : Request) (s : AuthState) (identity : AuthenticatedIdentity)
    : Type 0 where
  pub id : Text
  pub session : SessionRow
  pub user : UserRow
  pub cookie : req.session_cookie ≡ some id
  pub stored : find? (has_session_id id) s.sessions ≡ some session
  pub owner : find? (has_id session.user_id) s.users ≡ some user
  pub unexpired : now < session.expires_at_ms
  pub current : session.session_version ≡ user.session_version
  pub is_session : identity ≡ session_identity session user

pub identified_injective : {x y : AuthenticatedIdentity} → identified x ≡ identified y → x ≡ y
identified_injective h = some_injective (ap identity_of h)

not_enabled : (a b : Bool) → (not a || b) ≡ false → a ≡ true
not_enabled true b h = refl
not_enabled false b h = cc

pub authenticate_api_key-ByKey :
    (same_token : Text → Text → Bool) (config : AuthConfig) (req : Request)
    (identity : AuthenticatedIdentity)
    → authenticate_api_key same_token config req ≡ identified identity
    → ByKey same_token config req identity
unfolding authenticate_api_key
authenticate_api_key-ByKey same_token config req identity h =
    elim (Option-cases (supplied_key req)) [
      | inl e ↦ absurd (ground (arith, rw (e, authenticate_api_key) at h))
      | inr (supplied, e) ↦ elim (Bool-cases (not config.api_key_enabled || is_empty supplied)) [
        | inl f ↦ absurd (ground (arith, rw (e, f, authenticate_api_key) at h))
        | inr f ↦
            elim (Option-cases
              (find? (λ (entry : ApiKey). same_token supplied entry.key) config.api_keys)) [
                | inl g ↦ absurd (ground (arith, rw (e, f, g, authenticate_api_key) at h))
                | inr (entry, g) ↦
                    let found =
                      find?-Memᴰ (λ (entry : ApiKey). same_token supplied entry.key) config.api_keys
                        entry g in
                    record {
                      entry = entry;
                      supplied = supplied;
                      enabled = not_enabled config.api_key_enabled (is_empty supplied) f;
                      sent = e;
                      configured = found.0;
                      agrees = found.1;
                      is_entry =
                          sym (identified_injective (rw (e, f, g, authenticate_api_key) at h));
                    }
              ]
      ]
    ]

joined-stored :
    (id : Text) (s : AuthState) (session : SessionRow) (user : UserRow)
    → joined id s ≡ some (session, user)
    → (find? (has_session_id id) s.sessions ≡ some session)
      × (find? (has_id session.user_id) s.users ≡ some user)
unfolding joined
joined-stored id s session user h = elim (Option-cases (find? (has_session_id id) s.sessions)) [
  | inl e ↦ absurd (ground (arith, rw (e, joined) at h))
  | inr (found, e) ↦ elim (Option-cases (find? (has_id found.user_id) s.users)) [
    | inl f ↦ absurd (ground (arith, rw (e, f, joined) at h))
    | inr (owner, f) ↦
        let pair = some_injective (rw (e, f, joined) at h) in
        let same : found ≡ session = ap (λ p. p.0) pair in
        let own : owner ≡ user = ap (λ p. p.1) pair in
        (
          e ∙ ap some same,
          subst (λ r. find? (has_id r.user_id) s.users ≡ some user) same (f ∙ ap some own),
        )
  ]
]

fresh :
    (now : ℕ) (session : SessionRow) (user : UserRow)
    → is_stale now session user ≡ false
    → (now < session.expires_at_ms) × (session.session_version ≡ user.session_version)
unfolding is_stale
fresh now session user h = ground (arith, h)

pub authenticate_session-BySession :
    (now : ℕ) (req : Request) (s : AuthState) (identity : AuthenticatedIdentity)
    → (authenticate_session now req s).0 ≡ identified identity
    → BySession now req s identity
unfolding authenticate_session
authenticate_session-BySession now req s identity h = elim (Option-cases req.session_cookie) [
  | inl e ↦ absurd (ground (arith, rw (e, authenticate_session) at h))
  | inr (id, e) ↦ elim (Bool-cases (is_empty id)) [
    | inl f ↦ absurd (ground (arith, rw (e, f, authenticate_session) at h))
    | inr f ↦ elim (Option-cases (joined id s)) [
      | inl g ↦ absurd (ground (arith, rw (e, f, g, authenticate_session) at h))
      | inr ((session, user), g) ↦ elim (Bool-cases (is_stale now session user)) [
        | inl k ↦ absurd (ground (arith, rw (e, f, g, k, authenticate_session) at h))
        | inr k ↦
            let (stored, owner) = joined-stored id s session user g in
            let (unexpired, current) = fresh now session user k in
            record {
              id = id;
              session = session;
              user = user;
              cookie = e;
              stored = stored;
              owner = owner;
              unexpired = unexpired;
              current = current;
              is_session = sym (identified_injective (rw (e, f, g, k, authenticate_session) at h));
            }
      ]
    ]
  ]
]

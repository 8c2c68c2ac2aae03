-- ===== src/Auth/Issued.antt =====
-- Whom a session lets in was handed that session by a login (api/src/auth/service.ts).
use mathlib.Core.List.{Memᴰ}
use cryptotracker.Base.{
  ℕ, ◌+◌, ◌<◌, ◌≤◌, ◌≡◌, refl, sym, ap, subst, Bool, not, ◌||◌, Option, none, some, List, All-Memᴰ,
  find?-Memᴰ, Option-cases, Bool-cases, inl, inr,
}
use cryptotracker.Base.Codes.{Text, same_codes_iff}
use cryptotracker.Base.TextMaps.{get}
use cryptotracker.Auth.Cidr.{is_empty}
use cryptotracker.Auth.Records.{
  AuthenticatedIdentity, UserRow, SessionRow, AuthConfig, Request, AuthState, has_session_id,
}
use cryptotracker.Auth.Authenticate.{
  identified, Claims, Claimed, nothing, invalid, claimed, authenticate, authenticate_session,
  session_outcome, joined, is_stale, authenticate_api_key, authenticate_header, header_outcome,
  admit, without_session, direct_peer_trusted, reserved_headers_present, claimed_identity,
  header_allowed,
}
use cryptotracker.Auth.Throttle.{IsCounted, Window, key_of, Window-refused}
use cryptotracker.Auth.Login.{begin_login}
use cryptotracker.Auth.Admitted.{Outcome-cases}
use cryptotracker.Auth.History.{
  no_state, Issue, IsIssued, IsSound, Reach, start, synchronized, began, ended, logged_out,
  authenticated, purged,
}
use cryptotracker.Auth.Sound.{
  IsSound-filter, IsSound-same, synchronize_local_user-IsSound, logout-IsSound,
  purge_expired_sessions-IsSound,
}
use cryptotracker.Auth.Entitled.{authenticate_session-BySession}
use cryptotracker.Auth.Sessions.{begin_login-IsSound, end_login-IsSound}

module _ (issued : List Issue) where
  without_session-IsSound :
      (id : Text) (s : AuthState) → IsSound issued s → IsSound issued (without_session id s)
  without_session-IsSound id s h =
      IsSound-filter issued (λ session. not (has_session_id id session)) s _ refl refl h

  session_outcome-IsSound :
      (now : ℕ) (id : Text) (s : AuthState) (row : Option (SessionRow × UserRow))
      → IsSound issued s
      → IsSound issued (session_outcome now id s row).1
  unfolding session_outcome
  session_outcome-IsSound now id s none h = without_session-IsSound id s h
  session_outcome-IsSound now id s (some (session, user)) h =
      elim (Bool-cases (is_stale now session user)) [
        | inl e ↦ rw (e, session_outcome) (without_session-IsSound id s h)
        | inr e ↦ rw (e, session_outcome) h
      ]

  authenticate_session-IsSound :
      (now : ℕ) (req : Request) (s : AuthState)
      → IsSound issued s
      → IsSound issued (authenticate_session now req s).1
  unfolding authenticate_session
  authenticate_session-IsSound now req s h = elim (Option-cases req.session_cookie) [
    | inl e ↦ rw (e, authenticate_session) h
    | inr (id, e) ↦ elim (Bool-cases (is_empty id)) [
      | inl f ↦ rw (e, f, authenticate_session) h
      | inr f ↦ rw (e, f, authenticate_session) (session_outcome-IsSound now id s (joined id s) h)
    ]
  ]

module _ (issued : List Issue) (csrf_token : Text → ℕ → Text) (config : AuthConfig)
    (is_ip : Text → ℕ) (jwt_verify : Text → Option Claims) (now : ℕ) (req : Request)
    (s : AuthState) where
  header_outcome-IsSound :
      (c : Claimed)
      → IsSound issued s
      → IsSound issued (header_outcome csrf_token config now req s c).1
  unfolding header_outcome admit
  header_outcome-IsSound nothing h = h
  header_outcome-IsSound invalid h = h
  header_outcome-IsSound (claimed username groups) h =
      elim (Bool-cases (is_empty username || not (header_allowed config username groups))) [
        | inl e ↦ rw (e, admit) (IsSound-same issued s _ refl refl h)
        | inr e ↦ rw (e, admit) (IsSound-same issued s _ refl refl h)
      ]

  authenticate_header-IsSound :
      IsSound issued s
      → IsSound issued (authenticate_header csrf_token config is_ip jwt_verify now req s).1
  unfolding authenticate_header
  authenticate_header-IsSound h = elim (Bool-cases config.header_enabled) [
    | inr e ↦ rw (e, authenticate_header) h
    | inl e ↦ elim (Bool-cases (direct_peer_trusted is_ip config req)) [
      | inl f ↦
          rw (e, f, authenticate_header)
            (header_outcome-IsSound (claimed_identity jwt_verify config now req) h)
      | inr f ↦ elim (Bool-cases (reserved_headers_present req)) [
        | inl g ↦ rw (e, f, g, authenticate_header) (IsSound-same issued s _ refl refl h)
        | inr g ↦ rw (e, f, g, authenticate_header) h
      ]
    ]
  ]

  authenticate-IsSound :
      (same_token : Text → Text → Bool)
      → IsSound issued s
      → IsSound issued (authenticate csrf_token config is_ip same_token jwt_verify now req s).1
  unfolding authenticate
  authenticate-IsSound same_token h =
      elim (Outcome-cases (authenticate_api_key same_token config req)) [
        | inr (inl (identity, e)) ↦ rw (e, authenticate) h
        | inr (inr (error, e)) ↦ rw (e, authenticate) h
        | inl e ↦
            let after = (authenticate_header csrf_token config is_ip jwt_verify now req s).1 in
            let sound : IsSound issued after = authenticate_header-IsSound h in
            elim (Outcome-cases
              (authenticate_header csrf_token config is_ip jwt_verify now req s).0) [
                | inr (inl (identity, f)) ↦ rw (e, f, authenticate) sound
                | inr (inr (error, f)) ↦ rw (e, f, authenticate) sound
                | inl f ↦
                    rw (e, f, authenticate)
                      (authenticate_session-IsSound issued now req after sound)
              ]
      ]

no_failures : (key : Text) → IsCounted (get key no_state.login_failures)
unfolding get
no_failures key = tt

module _ (verify : Text → Text → Bool) (config : AuthConfig) (is_ip : Text → ℕ)
    (csrf_token : Text → ℕ → Text) (same_token : Text → Text → Bool)
    (jwt_verify : Text → Option Claims) where
  pub Reach-IsSound :
      {issued : List Issue} {s : AuthState}
      → Reach verify config is_ip csrf_token same_token jwt_verify issued s
      → IsSound issued s
  Reach-IsSound start = record { handed_out = tt; counted = no_failures }
  Reach-IsSound (synchronized {issued} {s} r id hash now) =
      synchronize_local_user-IsSound issued verify config id hash now s (Reach-IsSound r)
  Reach-IsSound (began {issued} {s} r now req username) =
      begin_login-IsSound issued config is_ip now req username s (Reach-IsSound r)
  Reach-IsSound (ended {issued} {s} r id csrf now req username user) =
      end_login-IsSound issued config is_ip now req username s id csrf user (Reach-IsSound r)
  Reach-IsSound (logged_out {issued} {s} r now req identity) =
      logout-IsSound issued now req identity s (Reach-IsSound r)
  Reach-IsSound (authenticated {issued} {s} r now req) =
      authenticate-IsSound issued csrf_token config is_ip jwt_verify now req s same_token
        (Reach-IsSound r)
  Reach-IsSound (purged {issued} {s} r now) =
      purge_expired_sessions-IsSound issued now s (Reach-IsSound r)

  -- After any history, whom a session lets in holds an id and a CSRF token that one login handed out together, and the
  -- expiry that this login gave has not come.
  pub Reach-issued :
      {issued : List Issue} {s : AuthState}
      → Reach verify config is_ip csrf_token same_token jwt_verify issued s
      → (now : ℕ) (req : Request) (identity : AuthenticatedIdentity)
      → (authenticate_session now req s).0 ≡ identified identity
      → (id : Text) × (expires : ℕ) × (req.session_cookie ≡ some id)
        × Memᴰ (id, identity.csrf_token, expires) issued
        × (now < expires)
  Reach-issued {issued} {s} r now req identity h =
      let sound = Reach-IsSound r in
      let b = authenticate_session-BySession now req s identity h in
      let (mem, own) = find?-Memᴰ (has_session_id b.id) s.sessions b.session b.stored in
      let id : b.session.id ≡ b.id = (same_codes_iff b.session.id b.id).0 own in
      let csrf : b.session.csrf_token ≡ identity.csrf_token =
        sym (ap (λ i. i.csrf_token) b.is_session) in
      let issue : Memᴰ (b.session.id, b.session.csrf_token, b.session.expires_at_ms) issued =
        All-Memᴰ (IsIssued issued) s.sessions b.session sound.handed_out mem in
      (
        b.id,
        b.session.expires_at_ms,
        b.cookie,
        subst (λ i. Memᴰ (i, identity.csrf_token, b.session.expires_at_ms) issued) id
            (subst (λ c. Memᴰ (b.session.id, c, b.session.expires_at_ms) issued) csrf issue),
        b.unexpired,
      )

  -- After any history, however the attempts of one client at one name overlap: once ten wrong ones have been counted
  -- within ten seconds and no right one, every further one within these seconds is refused before its password is looked
  -- at.
  pub Reach-refused :
      {issued : List Issue} {s : AuthState}
      → Reach verify config is_ip csrf_token same_token jwt_verify issued s
      → (key : Text) (since : ℕ) {counted : ℕ} {t : AuthState}
      → Window config is_ip key since s counted t
      → 10 ≤ counted
      → (now : ℕ) (req : Request) (username : Text) → key_of config is_ip req username ≡ key
      → now < since + 10000
      → (seconds : ℕ) × (begin_login is_ip now req username t ≡ (some seconds, t))
  Reach-refused {issued} {s} r key since w =
      Window-refused config is_ip key since s ((Reach-IsSound r).counted key) w

-- ===== src/Auth/Sound.antt =====
-- Every operation keeps the sessions and the failures sound (api/src/auth/service.ts).

use cryptotracker.Base.{
  ℕ, ◌≡◌, refl, sym, subst, Bool, not, List, All, All-filter, filter, find?, Option-cases,
  Bool-cases, inl, inr, ltb,
}
use cryptotracker.Base.Codes.{Text}
use cryptotracker.Base.TextMaps.{get}
use cryptotracker.Auth.Cidr.{is_empty}
use cryptotracker.Auth.Records.{
  AuthenticatedIdentity, SessionRow, AuthConfig, Request, AuthState, normalize_username,
  has_session_id, has_user_id,
}
use cryptotracker.Auth.Login.{synchronize_local_user, logout, named, password_matches}
use cryptotracker.Auth.Authenticate.{purge_expired_sessions}
use cryptotracker.Auth.Throttle.{IsCounted}
use cryptotracker.Auth.History.{Issue, IsIssued, IsSound}

module _ (issued : List Issue) where
  -- Fewer sessions, and the same failures.
  pub IsSound-filter :
      (test : SessionRow → Bool) (s t : AuthState)
      → t.sessions ≡ filter test s.sessions
      → t.login_failures ≡ s.login_failures
      → IsSound issued s
      → IsSound issued t
  IsSound-filter test s t e f h = record {
    handed_out =
        subst (All (IsIssued issued)) (sym e)
          (All-filter (IsIssued issued) test s.sessions h.handed_out);
    counted = λ key. subst (λ m. IsCounted (get key m)) (sym f) (h.counted key);
  }

  -- The same sessions and failures.
  pub IsSound-same :
      (s t : AuthState)
      → t.sessions ≡ s.sessions
      → t.login_failures ≡ s.login_failures
      → IsSound issued s
      → IsSound issued t
  IsSound-same s t e f h = record {
    handed_out = subst (All (IsIssued issued)) (sym e) h.handed_out;
    counted = λ key. subst (λ m. IsCounted (get key m)) (sym f) (h.counted key);
  }

  pub synchronize_local_user-IsSound :
      (verify : Text → Text → Bool) (config : AuthConfig) (id hash : Text) (now : ℕ) (s : AuthState)
      → IsSound issued s
      → IsSound issued (synchronize_local_user verify config id hash now s)
  unfolding synchronize_local_user
  synchronize_local_user-IsSound verify config id hash now s h =
      elim (Bool-cases config.local_enabled) [
        | inr e ↦ rw (e, synchronize_local_user) h
        | inl e ↦
            elim (Option-cases (find? (named (normalize_username config.local_username)) s.users)) [
              | inl f ↦ rw (e, f, synchronize_local_user) (IsSound-same s _ refl refl h)
              | inr (user, f) ↦
                  elim (Bool-cases
                    (password_matches verify user.password_hash config.local_password)) [
                      | inl g ↦ rw (e, f, g, synchronize_local_user) (IsSound-same s _ refl refl h)
                      | inr g ↦
                          rw (e, f, g, synchronize_local_user)
                            (IsSound-filter (λ session. not (has_user_id user.id session)) s _ refl
                              refl h)
                    ]
            ]
      ]

  pub logout-IsSound :
      (now : ℕ) (req : Request) (identity : AuthenticatedIdentity) (s : AuthState)
      → IsSound issued s
      → IsSound issued (logout now req identity s)
  unfolding logout
  logout-IsSound now req identity s h = elim (Option-cases identity.session_id) [
    | inl e ↦ rw (e, logout) (IsSound-same s _ refl refl h)
    | inr (id, e) ↦ elim (Bool-cases (is_empty id)) [
      | inl f ↦ rw (e, f, logout) (IsSound-same s _ refl refl h)
      | inr f ↦
          rw (e, f, logout)
            (IsSound-filter (λ session. not (has_session_id id session)) s _ refl refl h)
    ]
  ]

  pub purge_expired_sessions-IsSound :
      (now : ℕ) (s : AuthState) → IsSound issued s → IsSound issued (purge_expired_sessions now s)
  unfolding purge_expired_sessions
  purge_expired_sessions-IsSound now s h =
      IsSound-filter (λ session. ltb now session.expires_at_ms) s _ refl refl h

-- ===== src/Auth/Sessions.antt =====
-- A login keeps the sessions and the failures sound (api/src/auth/service.ts).
use mathlib.Core.List.{Memᴰ}
use cryptotracker.Base.{
  ℕ, ◌+◌, ◌*◌, refl, not, Option, none, some, List, [], ◌∷◌, All-imp, All-append, All-filter,
  filter, Option-cases, Bool-cases, inl, inr, ◌==◌,
}
use cryptotracker.Base.Codes.{Text, same_codes}
use cryptotracker.Base.TextMaps.{get, delete, get-delete}
use cryptotracker.Auth.Records.{
  UserRow, SessionRow, LoginFailureState, AuthConfig, Request, AuthState, normalize_username,
  has_session_id,
}
use cryptotracker.Auth.Login.{
  begin_login, end_login, failures_of, denied_login, open_session, new_session, failure_key,
  forget_block, blocked_for, count_failure,
}
use cryptotracker.Auth.Failures.{get-count_failure}
use cryptotracker.Auth.Throttle.{IsCounted, next_entry-IsCounted}
use cryptotracker.Auth.History.{Issue, issue, IsIssued, IsSound}

module _ (issued : List Issue) where
  IsIssued-tail :
      (i : Issue) (session : SessionRow) → IsIssued issued session → IsIssued (i ∷ issued) session
  IsIssued-tail i session h = Memᴰ.tail h

  -- A key that has no entry any more is below the limit.
  IsCounted-delete :
      (key j : Text) (known : List (Text × LoginFailureState))
      → IsCounted (get j known)
      → IsCounted (get j (delete key known))
  IsCounted-delete key j known h = elim (Bool-cases (same_codes key j)) [
    | inl e ↦ rw (get-delete key j known, e) tt
    | inr e ↦ rw (get-delete key j known, e) h
  ]

  IsCounted-count_failure :
      (now : ℕ) (key j : Text) (known : List (Text × LoginFailureState))
      → IsCounted (get j known)
      → IsCounted (get j (count_failure now key known))
  IsCounted-count_failure now key j known h = elim (Bool-cases (same_codes key j)) [
    | inl e ↦
        rw (get-count_failure key known now j, e)
          (next_entry-IsCounted now (failures_of (get key known)))
    | inr e ↦ rw (get-count_failure key known now j, e) h
  ]

  IsCounted-forget_block :
      (key j : Text) (known : List (Text × LoginFailureState))
      → IsCounted (get j known)
      → IsCounted (get j (forget_block key known))
  unfolding forget_block
  IsCounted-forget_block key j known h = elim (Option-cases (get key known)) [
    | inl e ↦ rw (e, forget_block) h
    | inr (previous, e) ↦ elim (Bool-cases (previous.blocked_until_ms == 0)) [
      | inl f ↦ rw (e, f, forget_block) h
      | inr f ↦ rw (e, f, forget_block) (IsCounted-delete key j known h)
    ]
  ]

  module _ (config : AuthConfig) (is_ip : Text → ℕ) (now : ℕ) (req : Request) (username : Text)
      (s : AuthState) where
    abbrev key : Text
    key = failure_key is_ip req (normalize_username username)

    pub begin_login-IsSound :
        IsSound issued s → IsSound issued (begin_login is_ip now req username s).1
    unfolding begin_login
    begin_login-IsSound h = elim (Option-cases (blocked_for now (get key s.login_failures))) [
      | inr (seconds, e) ↦ rw (e, begin_login) h
      | inl e ↦
          rw (e, begin_login)
            (record {
              handed_out = h.handed_out;
              counted = λ j. IsCounted-forget_block key j s.login_failures (h.counted j);
            })
    ]

    denied_login-IsSound :
        (name : Text) → IsSound issued s → IsSound issued (denied_login now req key name s)
    unfolding denied_login
    denied_login-IsSound name h = record {
      handed_out = h.handed_out;
      counted = λ j. IsCounted-count_failure now key j s.login_failures (h.counted j);
    }

    open_session-IsSound :
        (id csrf : Text) (user : UserRow)
        → IsSound issued s
        → IsSound
            ((id, csrf, now + config.session_ttl_minutes * 60000) ∷ issued)
            (open_session config id csrf now req key user s)
    unfolding open_session
    open_session-IsSound id csrf user h = record {
      handed_out =
          All-append (IsIssued ((id, csrf, now + config.session_ttl_minutes * 60000) ∷ issued))
            (filter (λ session. not (has_session_id id session)) s.sessions)
            (new_session config id csrf user req now ∷ [])
            (All-imp (IsIssued issued) _
              (filter (λ session. not (has_session_id id session)) s.sessions)
              (IsIssued-tail (id, csrf, now + config.session_ttl_minutes * 60000))
              (All-filter (IsIssued issued) (λ session. not (has_session_id id session)) s.sessions
                h.handed_out))
            (Memᴰ.head refl, tt);
      counted = λ j. IsCounted-delete key j s.login_failures (h.counted j);
    }

    pub end_login-IsSound :
        (id csrf : Text) (user : Option UserRow)
        → IsSound issued s
        → IsSound
            (issue id (end_login config is_ip id csrf now req username user s).0 issued)
            (end_login config is_ip id csrf now req username user s).1
    unfolding end_login
    end_login-IsSound id csrf none h = denied_login-IsSound (normalize_username username) h
    end_login-IsSound id csrf (some user) h = open_session-IsSound id csrf user h

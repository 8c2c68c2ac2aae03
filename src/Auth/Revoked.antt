-- ===== src/Auth/Revoked.antt =====
-- A changed password ends the sessions of its user (api/src/auth/service.ts).

use cryptotracker.Base.{
  ℕ, ◌≡◌, ◌≢◌, refl, sym, ap, subst, ◌∙◌, Bool, true, false, not, some, some_injective, arith,
  All-Memᴰ, filter-All, find?-Memᴰ, find?,
}
use cryptotracker.Base.Codes.{Text, same_codes_iff}
use cryptotracker.Auth.Records.{
  AuthenticatedIdentity, UserRow, AuthConfig, Request, AuthState, normalize_username,
  has_session_id, has_user_id,
}
use cryptotracker.Auth.Login.{synchronize_local_user, replace_password, named, password_matches}
use cryptotracker.Auth.Authenticate.{identified, authenticate_session}
use cryptotracker.Auth.Entitled.{authenticate_session-BySession}

-- After the configured password has been found to differ from the stored one, no session lets the local user in that
-- was stored before.
pub synchronize_local_user_revokes :
    (verify : Text → Text → Bool) (config : AuthConfig) (id hash : Text) (now : ℕ) (s : AuthState)
    (user : UserRow)
    → config.local_enabled ≡ true
    → find? (named (normalize_username config.local_username)) s.users ≡ some user
    → password_matches verify user.password_hash config.local_password ≡ false
    → (later : ℕ) (req : Request) (identity : AuthenticatedIdentity)
    → (authenticate_session later req (synchronize_local_user verify config id hash now s)).0
      ≡ identified identity
    → identity.user_id ≢ some user.id
unfolding synchronize_local_user replace_password
synchronize_local_user_revokes verify config id hash now s user e f g later req identity h own =
    let after : AuthState =
      replace_password user.id hash now (record s { local_user_id = some user.id }) in
    let same : synchronize_local_user verify config id hash now s ≡ after =
      rw (e, f, g, synchronize_local_user) refl in
    let b =
      authenticate_session-BySession later req after identity
        (subst (λ t. (authenticate_session later req t).0 ≡ identified identity) same h) in
    let (mem, _) = find?-Memᴰ (has_session_id b.id) after.sessions b.session b.stored in
    let kept : not (has_user_id user.id b.session) ≡ true =
      All-Memᴰ (λ session. not (has_user_id user.id session) ≡ true) after.sessions b.session
        (filter-All (λ session. not (has_user_id user.id session)) s.sessions) mem in
    let owner : b.session.user_id ≡ user.id =
      some_injective (sym (ap (λ i. i.user_id) b.is_session) ∙ own) in
    ground (arith, kept, (same_codes_iff b.session.user_id user.id).1 owner)

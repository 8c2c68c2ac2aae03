-- ===== src/Auth/Admitted.antt =====
-- Whom `authenticate` lets in (api/src/auth/service.ts).

use cryptotracker.Base.{
  ℕ, ◌≡◌, refl, sym, ap, subst, ◌∙◌, Bool, true, false, ◌||◌, not, Option, none, List, ◌⊎◌, inl,
  inr, Bool-cases, arith,
}
use cryptotracker.Base.Codes.{Text}
use cryptotracker.Auth.Cidr.{is_empty}
use cryptotracker.Auth.Records.{
  AuthenticatedIdentity, AuthError, header_untrusted, AuthConfig, Request, AuthState, audit,
  header_spoof, denied,
}
use cryptotracker.Auth.Authenticate.{
  Outcome, absent, identified, refused, Claims, Claimed, nothing, invalid, claimed,
  claimed_identity, authenticate_session, authenticate_api_key, header_allowed, direct_peer_trusted,
  identity_row, reserved_headers_present, header_identity_of, header_outcome, admit,
  authenticate_header, authenticate,
}
use cryptotracker.Auth.Entitled.{
  identified_injective, ByKey, BySession, authenticate_api_key-ByKey,
  authenticate_session-BySession,
}

-- An allowed identity that a trusted peer claims.
pub record ByHeader (csrf_token : Text → ℕ → Text) (config : AuthConfig) (is_ip : Text → ℕ)
    (jwt_verify : Text → Option Claims) (now : ℕ) (req : Request) (identity : AuthenticatedIdentity)
    : Type 0 where
  pub username : Text
  pub groups : List Text
  pub enabled : config.header_enabled ≡ true
  pub trusted : direct_peer_trusted is_ip config req ≡ true
  pub claims : claimed_identity jwt_verify config now req ≡ claimed username groups
  pub named : is_empty username ≡ false
  pub allowed : header_allowed config username groups ≡ true
  pub is_claimed : identity ≡ header_identity_of csrf_token config now username groups

abbrev is_absent : Outcome → Bool
is_absent absent = true
is_absent _ = false

pub Outcome-cases :
    (o : Outcome)
    → (o ≡ absent)
      ⊎ (((identity : AuthenticatedIdentity) × (o ≡ identified identity))
          ⊎ ((error : AuthError) × (o ≡ refused error)))
Outcome-cases absent = inl refl
Outcome-cases (identified identity) = inr (inl (identity, refl))
Outcome-cases (refused error) = inr (inr (error, refl))

Claimed-cases :
    (c : Claimed)
    → (c ≡ nothing)
      ⊎ ((c ≡ invalid) ⊎ ((username : Text) × (groups : List Text) × (c ≡ claimed username groups)))
Claimed-cases nothing = inl refl
Claimed-cases invalid = inr (inl refl)
Claimed-cases (claimed username groups) = inr (inr (username, groups, refl))

module _ (csrf_token : Text → ℕ → Text) (config : AuthConfig) (is_ip : Text → ℕ)
    (jwt_verify : Text → Option Claims) (now : ℕ) (req : Request) (s : AuthState) where
  abbrev header_step : Outcome × AuthState
  header_step = authenticate_header csrf_token config is_ip jwt_verify now req s

  authenticate_header-ByHeader :
      (identity : AuthenticatedIdentity)
      → header_step.0 ≡ identified identity
      → ByHeader csrf_token config is_ip jwt_verify now req identity
  unfolding authenticate_header header_outcome admit
  authenticate_header-ByHeader identity h = elim (Bool-cases config.header_enabled) [
    | inl e ↦ elim (Bool-cases (direct_peer_trusted is_ip config req)) [
      | inl f ↦ elim (Claimed-cases (claimed_identity jwt_verify config now req)) [
        | inl g ↦ absurd (ground (arith, rw (e, f, g, authenticate_header) at h))
        | inr (inl g) ↦ absurd (ground (arith, rw (e, f, g, authenticate_header) at h))
        | inr (inr (username, groups, g)) ↦
            elim (Bool-cases (is_empty username || not (header_allowed config username groups))) [
              | inl k ↦ absurd (ground (arith, rw (e, f, g, k, authenticate_header) at h))
              | inr k ↦ record {
                username = username;
                groups = groups;
                enabled = e;
                trusted = f;
                claims = g;
                named = ground (arith, k);
                allowed = ground (arith, k);
                is_claimed = sym (identified_injective (rw (e, f, g, k, authenticate_header) at h));
              }
            ]
      ]
      | inr f ↦ elim (Bool-cases (reserved_headers_present req)) [
        | inl g ↦ absurd (ground (arith, rw (e, f, g, authenticate_header) at h))
        | inr g ↦ absurd (ground (arith, rw (e, f, g, authenticate_header) at h))
      ]
    ]
    | inr e ↦ absurd (ground (arith, rw (e, authenticate_header) at h))
  ]

  header_outcome_absent :
      (c : Claimed)
      → is_absent (header_outcome csrf_token config now req s c).0 ≡ true
      → (header_outcome csrf_token config now req s c).1 ≡ s
  unfolding header_outcome admit
  header_outcome_absent nothing h = refl
  header_outcome_absent invalid h = cc
  header_outcome_absent (claimed username groups) h =
      elim (Bool-cases (is_empty username || not (header_allowed config username groups))) [
        | inl k ↦ absurd (ground (arith, rw (k, admit) at h))
        | inr k ↦ absurd (ground (arith, rw (k, admit) at h))
      ]

  authenticate_header_absent : is_absent header_step.0 ≡ true → header_step.1 ≡ s
  unfolding authenticate_header
  authenticate_header_absent h = elim (Bool-cases config.header_enabled) [
    | inr e ↦ rw (e, authenticate_header) refl
    | inl e ↦ elim (Bool-cases (direct_peer_trusted is_ip config req)) [
      | inl f ↦
          rw (e, f, authenticate_header)
            (header_outcome_absent (claimed_identity jwt_verify config now req)
              (rw (e, f, authenticate_header) at h))
      | inr f ↦ elim (Bool-cases (reserved_headers_present req)) [
        | inl g ↦ absurd (ground (arith, rw (e, f, g, authenticate_header) at h))
        | inr g ↦ rw (e, f, g, authenticate_header) refl
      ]
    ]
  ]

  header_spoofed :
      config.header_enabled ≡ true
      → direct_peer_trusted is_ip config req ≡ false
      → reserved_headers_present req ≡ true
      → header_step
        ≡ (refused header_untrusted, audit (identity_row now req none header_spoof denied) s)
  unfolding authenticate_header
  header_spoofed e f g = rw (e, f, g, authenticate_header) refl

  module _ (same_token : Text → Text → Bool) where
    abbrev answer : Outcome × AuthState
    answer = authenticate csrf_token config is_ip same_token jwt_verify now req s

    -- Who is let in is so by a configured key that agrees with the supplied one, by an allowed identity that the
    -- headers of a trusted peer claim, or by a stored session of the cookie that has not expired and is of its user's
    -- present version.
    pub authenticate-entitled :
        (identity : AuthenticatedIdentity)
        → answer.0 ≡ identified identity
        → ByKey same_token config req identity
          ⊎ (ByHeader csrf_token config is_ip jwt_verify now req identity
              ⊎ BySession now req s identity)
    unfolding authenticate
    authenticate-entitled identity h =
        elim (Outcome-cases (authenticate_api_key same_token config req)) [
          | inr (inl (found, e)) ↦ inl (
              authenticate_api_key-ByKey same_token config req identity
                (e ∙ rw (e, authenticate) at h))
          | inr (inr (error, e)) ↦ absurd (ground (arith, rw (e, authenticate) at h))
          | inl e ↦ elim (Outcome-cases header_step.0) [
            | inr (inl (found, f)) ↦
                inr (inl (authenticate_header-ByHeader identity (f ∙ rw (e, f, authenticate) at h)))
            | inr (inr (error, f)) ↦ absurd (ground (arith, rw (e, f, authenticate) at h))
            | inl f ↦
                let session : (authenticate_session now req header_step.1).0 ≡ identified identity =
                  rw (e, f, authenticate) at h in
                let kept : header_step.1 ≡ s = authenticate_header_absent (ap is_absent f) in
                inr (
                  inr (
                    authenticate_session-BySession now req s identity (
                      subst (λ t. (authenticate_session now req t).0 ≡ identified identity) kept
                        session)))
          ]
        ]

    -- Where identity headers are enabled and no key decides, those from a peer that is not trusted are an error and
    -- are written to the audit log, whatever else the request carries.
    authenticate_spoof :
        authenticate_api_key same_token config req ≡ absent
        → config.header_enabled ≡ true
        → direct_peer_trusted is_ip config req ≡ false
        → reserved_headers_present req ≡ true
        → answer
          ≡ (refused header_untrusted, audit (identity_row now req none header_spoof denied) s)
    unfolding authenticate
    authenticate_spoof k e f g =
        rw (k, header_spoofed e f g, authenticate)
          (ap (λ (p : Outcome × AuthState). (refused header_untrusted, p.1)) (header_spoofed e f g))

-- ===== src/Auth/Mutations.antt =====
-- Which requests may change something (api/src/auth/service.ts).
use cryptotracker.Base.{
  ℕ, ltb, ltb→lt, ◌<◌, ◌≡◌, refl, sym, ap, ◌∙◌, ◌⊎◌, inl, inr, Bool, true, false, ◌&&◌, ◌||◌, not,
  Bool-cases, Option, none, some, List, [], ◌∷◌, ◌++◌, arith, get_or_else,
}
use cryptotracker.Base.Codes.{
  Text, same_codes, same_codes_iff, split, lacks, split-append, split-lacks, join, join-split,
}
use cryptotracker.Auth.Cidr.{is_empty}
use cryptotracker.Auth.Records.{
  AuthMethod, local, header, api_key, Role, read, readwrite, AuthenticatedIdentity, AuthConfig,
  Request, given,
}
use cryptotracker.Auth.Csrf.{
  Tokens, header_csrf_token, accepts, verify_parts, verify_header_csrf_token, csrf_valid,
  role_error, browser_error, assert_csrf,
}

-- The documented forms of base64url texts and of JSON: no dots, not empty, and a payload is read as it was written.
pub record Laws (tokens : Tokens) : Type 0 where
  pub sign-lacks : (text : Text) → lacks b'.' (tokens.sign text) ≡ true
  pub sign-nonempty : (text : Text) → is_empty (tokens.sign text) ≡ false
  pub payload-lacks :
      (username : Text) (expires : ℕ) → lacks b'.' (tokens.payload username expires) ≡ true
  pub payload-nonempty :
      (username : Text) (expires : ℕ) → is_empty (tokens.payload username expires) ≡ false
  pub parse_payload-payload :
      (username : Text) (expires : ℕ)
      → tokens.parse_payload (tokens.payload username expires) ≡ some (username, expires)

-- A token is taken for a user until its expiry, and for that user only.
pub verify-header_csrf_token :
    (tokens : Tokens)
    → Laws tokens
    → (name username : Text) (expires now : ℕ)
    → verify_header_csrf_token tokens now name (header_csrf_token tokens username expires)
      ≡ (same_codes username name && ltb now expires)
unfolding verify_header_csrf_token header_csrf_token
verify-header_csrf_token tokens laws name username expires now =
    let part = tokens.payload username expires in
    let parts : split b'.' (part ++ b'.' ∷ tokens.sign part) ≡ part ∷ tokens.sign part ∷ [] =
      rw
        (
          split-append b'.' part (tokens.sign part) (laws.payload-lacks username expires),
          split-lacks b'.' (tokens.sign part) (laws.sign-lacks part),
        )
        refl in
    rw parts (
      rw
        (
          laws.payload-nonempty username expires,
          laws.sign-nonempty part,
          (same_codes_iff (tokens.sign part) (tokens.sign part)).1 refl,
          laws.parse_payload-payload username expires,
        )
        refl)

-- What entitles a request to change something.
pub data MayMutate (tokens : Tokens) (config : AuthConfig) (now : ℕ) (req : Request)
    (identity : AuthenticatedIdentity) : Type 0 where
  by_key :
      identity.auth_method ≡ api_key
      → identity.role ≡ readwrite
      → MayMutate tokens config now req identity
  by_session :
      identity.auth_method ≡ local
      → req.origin ≡ some config.expected_origin
      → get_or_else req.csrf_header [] ≡ identity.csrf_token
      → MayMutate tokens config now req identity
  by_token :
      identity.auth_method ≡ header
      → req.origin ≡ some config.expected_origin
      → (part : Text) (expires : ℕ)
      → get_or_else req.csrf_header [] ≡ part ++ b'.' ∷ tokens.sign part
      → tokens.parse_payload part ≡ some (identity.username, expires)
      → now < expires
      → MayMutate tokens config now req identity

and_true : (a b : Bool) → (a && b) ≡ true → (a ≡ true) × (b ≡ true)
and_true true b h = (refl, h)
and_true false b h = absurd (cc)

accepts_inv :
    (now : ℕ) (username : Text) (o : Option (Text × ℕ))
    → accepts now username o ≡ true
    → (expires : ℕ) × (o ≡ some (username, expires)) × (now < expires)
accepts_inv now username none h = absurd (cc)
accepts_inv now username (some (name, expires)) h =
    let (same, later) = and_true (same_codes name username) (ltb now expires) h in
    (
      expires,
      ap (λ n. some (n, expires)) ((same_codes_iff name username).0 same),
      ltb→lt now expires later,
    )

verify_parts-forged :
    (tokens : Tokens) (now : ℕ) (username : Text) (parts : List Text)
    → verify_parts tokens now username parts ≡ true
    → (part : Text) × (expires : ℕ) × (join b'.' parts ≡ part ++ b'.' ∷ tokens.sign part)
      × (tokens.parse_payload part ≡ some (username, expires))
      × (now < expires)
unfolding verify_parts
verify_parts-forged tokens now username [] h = absurd (cc)
verify_parts-forged tokens now username (part ∷ []) h = absurd (cc)
verify_parts-forged tokens now username (part ∷ signature ∷ []) h =
    let filled = not (is_empty part) && not (is_empty signature) in
    let matching = same_codes signature (tokens.sign part) in
    let (signed, accepted) =
      and_true (filled && matching) (accepts now username (tokens.parse_payload part)) h in
    let (_, same) = and_true filled matching signed in
    let (expires, payload, later) = accepts_inv now username (tokens.parse_payload part) accepted in
    let own = (same_codes_iff signature (tokens.sign part)).0 same in
    (part, expires, ap (λ t. part ++ b'.' ∷ t) own, payload, later)
verify_parts-forged tokens now username (part ∷ signature ∷ other ∷ parts) h = absurd (cc)

AuthMethod-cases : (m : AuthMethod) → (m ≡ api_key) ⊎ ((m ≡ local) ⊎ (m ≡ header))
AuthMethod-cases api_key = inl refl
AuthMethod-cases local = inr (inl refl)
AuthMethod-cases header = inr (inr refl)

origin_matches :
    (origin : Option Text) (expected : Text)
    → (not (given origin) || not (same_codes (get_or_else origin []) expected)) ≡ false
    → origin ≡ some expected
origin_matches none expected h = absurd (cc)
origin_matches (some origin) expected h =
    ap some ((same_codes_iff origin expected).0 (ground (arith, h)))

role_error-none : (role : Role) → role_error role ≡ none → role ≡ readwrite
unfolding role_error
role_error-none readwrite h = refl
role_error-none read h = absurd (ground (arith, h))

browser_error-none :
    (config : AuthConfig) (req : Request) (valid : Bool)
    → browser_error config req valid ≡ none
    → (req.origin ≡ some config.expected_origin) × (valid ≡ true)
unfolding browser_error
browser_error-none config req valid h =
    elim (Bool-cases (
      not (given req.origin)
      || not (same_codes (get_or_else req.origin []) config.expected_origin))) [
        | inl e ↦ absurd (ground (arith, rw (e, browser_error) at h))
        | inr e ↦ elim (Bool-cases valid) [
          | inl f ↦ (origin_matches req.origin config.expected_origin e, f)
          | inr f ↦ absurd (ground (arith, rw (e, f, browser_error) at h))
        ]
      ]

-- A request that `assertCsrf` lets pass comes with a key for writing; or from the configured origin, with the token of
-- its session, or with a signed payload that names its user and has not expired.
pub assert_csrf-MayMutate :
    (tokens : Tokens) (config : AuthConfig) (now : ℕ) (req : Request)
    (identity : AuthenticatedIdentity)
    → assert_csrf tokens config now req identity ≡ none
    → MayMutate tokens config now req identity
unfolding assert_csrf csrf_valid verify_header_csrf_token
assert_csrf-MayMutate tokens config now req identity h =
    elim (AuthMethod-cases identity.auth_method) [
      | inl m ↦ by_key m (role_error-none identity.role (rw (m, assert_csrf) at h))
      | inr (inl m) ↦
          let (origin, valid) =
            browser_error-none config req (csrf_valid tokens now req identity)
              (rw (m, assert_csrf) at h) in
          let token = rw (m, csrf_valid) at valid in
          by_session m origin
            ((same_codes_iff (get_or_else req.csrf_header []) identity.csrf_token).0 token)
      | inr (inr m) ↦
          let (origin, valid) =
            browser_error-none config req (csrf_valid tokens now req identity)
              (rw (m, assert_csrf) at h) in
          let token = rw (m, csrf_valid) at valid in
          let text = get_or_else req.csrf_header [] in
          let (part, expires, parts, payload, later) =
            verify_parts-forged tokens now identity.username (split b'.' text) token in
          by_token m origin part expires (sym (join-split b'.' text) ∙ parts) payload later
    ]

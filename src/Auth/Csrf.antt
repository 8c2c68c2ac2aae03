-- ===== src/Auth/Csrf.antt =====
-- The tokens of header identities, and `assertCsrf` (api/src/auth/service.ts).
use cryptotracker.Base.{
  ℕ, ltb, Bool, false, ◌&&◌, ◌||◌, not, Option, none, some, List, [], ◌∷◌, ◌++◌, get_or_else,
  if◌then◌else◌,
}
use cryptotracker.Base.Codes.{Text, same_codes, split}
use cryptotracker.Auth.Cidr.{is_empty}
use cryptotracker.Auth.Records.{
  header, api_key, Role, read, readwrite, AuthenticatedIdentity, AuthError, forbidden,
  origin_invalid, csrf_invalid, AuthConfig, Request, given,
}

-- What the service uses of Node's crypto and of JSON: the signature of a payload under the session secret, and the
-- payload of a user name and an expiry. `read` is none where `JSON.parse` throws.
pub record Tokens : Type 0 where
  pub sign : Text → Text
  pub payload : Text → ℕ → Text
  pub parse_payload : Text → Option (Text × ℕ)

abbrev pub accepts : ℕ → Text → Option (Text × ℕ) → Bool
accepts now username none = false
accepts now username (some (name, expires)) = same_codes name username && ltb now expires

-- A key for reading may change nothing.
unfoldable pub role_error : Role → Option AuthError
role_error readwrite = none
role_error read = some forbidden

-- The tests of the origin and, after it, of the token.
unfoldable pub browser_error : AuthConfig → Request → Bool → Option AuthError
browser_error config req valid =
    if not (given req.origin) || not (same_codes (get_or_else req.origin []) config.expected_origin)
    then some origin_invalid
    else if valid
    then none
    else some csrf_invalid

module _ (tokens : Tokens) where
  open tokens use {sign, payload, parse_payload}

  -- `headerCsrfToken`, with the default expiry written out by the caller.
  unfoldable pub header_csrf_token : Text → ℕ → Text
  header_csrf_token username expires =
      payload username expires ++ b'.' ∷ sign (payload username expires)

  unfoldable pub verify_parts : ℕ → Text → List Text → Bool
  verify_parts now username (part ∷ signature ∷ []) =
      not (is_empty part)
      && not (is_empty signature)
      && same_codes signature (sign part)
      && accepts now username (parse_payload part)
  verify_parts now username _ = false

  unfoldable pub verify_header_csrf_token : ℕ → Text → Text → Bool
  unfolding verify_parts split
  verify_header_csrf_token now username token = verify_parts now username (split b'.' token)

  unfoldable pub csrf_valid : ℕ → Request → AuthenticatedIdentity → Bool
  unfolding verify_header_csrf_token
  csrf_valid now req identity =
      let token = get_or_else req.csrf_header [] in
      elim identity.auth_method [
        | header ↦ verify_header_csrf_token now identity.username token
        | _ ↦ same_codes token identity.csrf_token
      ]

  -- The error of `assertCsrf`, none where it returns.
  unfoldable pub assert_csrf : AuthConfig → ℕ → Request → AuthenticatedIdentity → Option AuthError
  unfolding role_error browser_error csrf_valid
  assert_csrf config now req identity = elim identity.auth_method [
    | api_key ↦ role_error identity.role
    | _ ↦ browser_error config req (csrf_valid now req identity)
  ]

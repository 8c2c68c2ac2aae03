-- ===== src/Auth/Tests.antt =====
-- Runs of the authentication (api/src/auth/), and the theorems at them.
use mathlib.Core.List.{Memᴰ}
use cryptotracker.Base.{
  ℕ, zero, suc, ◌+◌, ◌*◌, ◌-◌, ◌^◌, ◌<◌, ltb, ◌==◌, ◌≡◌, ◌≢◌, ◌↔◌, ◌⊎◌, refl, Bool, true, false,
  ◌&&◌, Option, none, some, [], ◌∷◌, any, map, ap₂, arith, if◌then◌else◌,
}
use cryptotracker.Base.Codes.{Text, codes, same_codes, split, trim, lacks}
use cryptotracker.Auth.Cidr.{
  ParsedIp, CidrRule, parse_ip, parse_cidr, is_ip_in_cidrs, ipv4_value, number,
}
use cryptotracker.Auth.Networks.{SamePrefix, parse_cidr-SamePrefix, parse_cidr_blank}
use cryptotracker.Auth.Records.{
  local, header, read, readwrite, AuthenticatedIdentity, UserRow, SessionRow, AuthConfig, Request,
  AuthState, normalize_username,
}
use cryptotracker.Auth.Login.{
  LoginResult, logged_in, synchronize_local_user, begin_login, end_login, verified_user,
  password_matches, failure_key,
}
use cryptotracker.Auth.Authenticate.{identified, Claims, authenticate_session, authenticate}
use cryptotracker.Auth.Csrf.{Tokens, header_csrf_token, verify_header_csrf_token, assert_csrf}
use cryptotracker.Auth.Entitled.{ByKey, BySession}
use cryptotracker.Auth.Admitted.{ByHeader, authenticate-entitled}
use cryptotracker.Auth.Throttle.{Window}
use cryptotracker.Auth.History.{no_state, issue, Reach}
use cryptotracker.Auth.Issued.{Reach-issued, Reach-refused}
use cryptotracker.Auth.Revoked.{synchronize_local_user_revokes}
use cryptotracker.Auth.Mutations.{Laws, verify-header_csrf_token, MayMutate, assert_csrf-MayMutate}
use cryptotracker.Auth.Dotted.{dotted, ipv4_value-dotted}

-- Node's `isIP` on the addresses below.
abbrev is_ip : Text → ℕ
is_ip text = if any (λ c. c == b':') text then 6 else if any (λ c. c == b'.') text then 4 else 0

abbrev no_number : Text → Option ℕ
no_number text = none

abbrev ten : ParsedIp
ten = record { version = 4; bits = 32; value = 0x0a000000 }

abbrev inside : ParsedIp
inside = record { version = 4; bits = 32; value = 0x0a020304 }

parses_mapped : parse_ip is_ip (codes " ::FFFF:10.2.3.4 ") ≡ some inside
unfolding parse_ip
parses_mapped = refl

parses_inside : parse_ip is_ip (codes "10.2.3.4") ≡ some inside
unfolding parse_ip
parses_inside = refl

parses_ten : parse_ip is_ip (codes "10.0.0.0") ≡ some ten
unfolding parse_ip
parses_ten = refl

parses_six :
    parse_ip is_ip (codes "2001:db8::1.2.3.4")
    ≡ some (record { version = 6; bits = 128; value = 0x20010db8000000000000000001020304 })
unfolding parse_ip
parses_six = refl

parse_cidr-SamePrefix_example :
    (rule : CidrRule) × (parse_cidr is_ip no_number (codes "10.0.0.0/8") ≡ some rule)
    × ((is_ip_in_cidrs is_ip (codes "10.2.3.4") (rule ∷ []) ≡ true) ↔ SamePrefix inside ten 8)
unfolding number split trim
parse_cidr-SamePrefix_example =
    parse_cidr-SamePrefix is_ip no_number (codes "10.0.0.0/8") (codes "10.2.3.4") (codes "10.0.0.0")
      (codes "8") inside ten 8 refl refl parses_inside parses_ten refl (omega arith)

parse_cidr_blank_example :
    (rule : CidrRule) × (parse_cidr is_ip no_number (codes "10.0.0.0/") ≡ some rule)
    × (is_ip_in_cidrs is_ip (codes "203.0.113.7") (rule ∷ []) ≡ true)
unfolding number split trim parse_ip
parse_cidr_blank_example =
    parse_cidr_blank is_ip no_number (codes "10.0.0.0/") (codes "203.0.113.7") (codes "10.0.0.0")
      (codes "") (record { version = 4; bits = 32; value = 0xcb007107 }) ten 0 refl refl refl
      parses_ten refl refl refl

ipv4_value-dotted_example :
    ipv4_value (dotted 192 168 0 1) ≡ some (192 * 2 ^ 24 + 168 * 2 ^ 16 + 0 * 2 ^ 8 + 1)
ipv4_value-dotted_example =
    ipv4_value-dotted 192 168 0 1 (omega arith) (omega arith) (omega arith) (omega arith)

abbrev config : AuthConfig
config = record {
  local_enabled = true;
  local_username = codes "Ada";
  local_password = codes "secret";
  session_ttl_minutes = 60;
  header_enabled = true;
  trusted_cidrs =
      record {
        version = 4;
        mask = 0xff000000;
        network = 0x0a000000;
        prefix_length = 8;
        raw = codes "10.0.0.0/8";
      }
      ∷ [];
  signed_identity_enabled = false;
  clock_skew_seconds = 30;
  max_token_ttl_seconds = 300;
  groups_separator = b',';
  allowed_users = [];
  allowed_groups = codes "Admins" ∷ [];
  api_key_enabled = true;
  api_keys = record { name = codes "reader"; key = codes "k1"; role = read } ∷ [];
  expected_origin = codes "https://ct.example";
}

abbrev request : Request
request = record {
  remote_address = some (codes "10.2.3.4");
  user_agent = none;
  session_cookie = none;
  username_header = none;
  groups_header = none;
  signed_identity_header = none;
  api_key_header = none;
  bearer_token = none;
  origin = some (codes "https://ct.example");
  csrf_header = none;
}

-- A hash that is the password itself.
abbrev verify : Text → Text → Bool
verify hash password = same_codes hash password

abbrev no_claims : Text → Option Claims
no_claims token = none

abbrev no_csrf : Text → ℕ → Text
no_csrf username expires = []

-- Payloads without dots, and a signature that is always the same.
abbrev shift : ℕ → ℕ
shift c = if ltb c b'.' then c else c + 1

abbrev back : ℕ → ℕ
back c = if ltb c b'.' then c else c - 1

abbrev read_payload : Text → Option (Text × ℕ)
read_payload [] = none
read_payload (expires ∷ username) = some (map back username, expires - 47)

abbrev tokens : Tokens
tokens = record {
  sign = λ text. codes "s";
  payload = λ username expires. (expires + 47) ∷ map shift username;
  parse_payload = read_payload;
}

shifted-lacks : (s : Text) → lacks b'.' (map shift s) ≡ true
shifted-lacks [] = refl
shifted-lacks (c ∷ s) = ground (arith, shifted-lacks s)

back-shifted : (s : Text) → map back (map shift s) ≡ s
back-shifted [] = refl
back-shifted (c ∷ s) = let same : back (shift c) ≡ c = ground arith in ap₂ ◌∷◌ same (back-shifted s)

abbrev ada : UserRow
ada = record {
  id = codes "u1";
  username = codes "ada";
  password_hash = some (codes "secret");
  session_version = 0;
  updated_at_ms = 5;
}

abbrev with_ada : AuthState
with_ada = synchronize_local_user verify config (codes "u1") (codes "secret") 5 no_state

abbrev signed_in : LoginResult × AuthState
signed_in =
    end_login config is_ip (codes "sid") (codes "csrf") 1000 request (codes " ADA ")
      (verified_user verify config (codes "ada") (codes "secret") with_ada)
      (begin_login is_ip 990 request (codes " ADA ") with_ada).1

abbrev with_cookie : Request
with_cookie = record request { session_cookie = some (codes "sid") }

logs_in : signed_in.0 ≡ logged_in (codes "ada") (codes "csrf") 3601000
unfolding begin_login end_login verified_user synchronize_local_user same_codes
logs_in = refl

session_lets_in :
    (authenticate_session 2000 with_cookie signed_in.1).0
    ≡ identified (record {
      username = codes "ada";
      groups = [];
      auth_method = local;
      user_id = some (codes "u1");
      session_id = some (codes "sid");
      csrf_token = codes "csrf";
      role = readwrite;
    })
unfolding begin_login end_login verified_user synchronize_local_user authenticate_session same_codes
session_lets_in = refl

abbrev signed_in_reach :
    Reach verify config is_ip no_csrf same_codes no_claims
      (issue (codes "sid") signed_in.0 [])
      signed_in.1
signed_in_reach =
    let known = Reach.synchronized Reach.start (codes "u1") (codes "secret") 5 in
    Reach.ended (Reach.began known 990 request (codes " ADA ")) (codes "sid") (codes "csrf") 1000
      request (codes " ADA ") (verified_user verify config (codes "ada") (codes "secret") with_ada)

abbrev ada_identity : AuthenticatedIdentity
ada_identity = record {
  username = codes "ada";
  groups = [];
  auth_method = local;
  user_id = some (codes "u1");
  session_id = some (codes "sid");
  csrf_token = codes "csrf";
  role = readwrite;
}

Reach-issued_example :
    (id : Text) × (expires : ℕ) × (with_cookie.session_cookie ≡ some id)
    × Memᴰ (id, codes "csrf", expires) (issue (codes "sid") signed_in.0 [])
    × (2000 < expires)
Reach-issued_example =
    Reach-issued verify config is_ip no_csrf same_codes no_claims signed_in_reach 2000 with_cookie
      ada_identity session_lets_in

-- The state after some wrong guesses that all began before the first of them ended.
abbrev guessed : ℕ → AuthState
guessed zero = (begin_login is_ip 2000 request (codes "ada") signed_in.1).1
guessed (suc n) =
    (end_login config is_ip (codes "sid") (codes "csrf") 2500 request (codes "ada") none
      (guessed n)).1

abbrev key_of_ada : Text
key_of_ada = failure_key is_ip request (normalize_username (codes "ada"))

guesses : (n : ℕ) → Window config is_ip key_of_ada 2000 signed_in.1 n (guessed n)
guesses zero =
    Window.began Window.opened 2000 request (codes "ada") refl (omega arith) (omega arith)
guesses (suc n) =
    Window.ended (guesses n) 2500 request (codes "ada") (codes "sid") (codes "csrf") refl
      (omega arith) (omega arith)

Reach-refused_example :
    (seconds : ℕ) × (begin_login is_ip 3000 request (codes "ada") (guessed 12)
      ≡ (some seconds, guessed 12))
Reach-refused_example =
    Reach-refused verify config is_ip no_csrf same_codes no_claims signed_in_reach key_of_ada 2000
      (guesses 12) (omega arith) 3000 request (codes "ada") refl (omega arith)

abbrev changed : AuthConfig
changed = record config { local_password = codes "new" }

-- Another user with a session, beside the local one.
abbrev eve_session : SessionRow
eve_session = record {
  id = codes "sid";
  user_id = codes "u2";
  csrf_token = codes "csrf";
  session_version = 0;
  created_at_ms = 1;
  expires_at_ms = 9000;
  source_ip = none;
  user_agent = none;
}

abbrev two_users : AuthState
two_users = record no_state {
  users = ada ∷ record ada { id = codes "u2"; username = codes "eve" } ∷ [];
  sessions = record eve_session { id = codes "old"; user_id = codes "u1" } ∷ eve_session ∷ [];
}

synchronize_local_user_revokes_example : some (codes "u2") ≢ some ada.id
unfolding synchronize_local_user authenticate_session same_codes password_matches normalize_username
synchronize_local_user_revokes_example =
    synchronize_local_user_revokes verify changed (codes "u3") (codes "new") 2000 two_users ada refl
      refl refl 3000 with_cookie
      (record ada_identity { username = codes "eve"; user_id = some (codes "u2") }) refl

abbrev proxied : Request
proxied = record request {
  username_header = some (codes "Bob");
  groups_header = some (codes "staff, Admins");
}

abbrev bob : AuthenticatedIdentity
bob = record {
  username = codes "bob";
  groups = codes "staff" ∷ codes "admins" ∷ [];
  auth_method = header;
  user_id = none;
  session_id = none;
  csrf_token = [];
  role = readwrite;
}

bob_is_let_in :
    (authenticate no_csrf config is_ip same_codes no_claims 2000 proxied no_state).0
    ≡ identified bob
unfolding authenticate same_codes
bob_is_let_in = refl

authenticate-entitled_example :
    ByKey same_codes config proxied bob
    ⊎ (ByHeader no_csrf config is_ip no_claims 2000 proxied bob
        ⊎ BySession 2000 proxied no_state bob)
authenticate-entitled_example =
    authenticate-entitled no_csrf config is_ip no_claims 2000 proxied no_state same_codes bob
      bob_is_let_in

laws : Laws tokens
laws = record {
  sign-lacks = λ text. refl;
  sign-nonempty = λ text. refl;
  payload-lacks = λ username expires. ground (arith, shifted-lacks username);
  payload-nonempty = λ username expires. refl;
  parse_payload-payload = λ username expires.
      let same : expires + 47 - 47 ≡ expires = omega arith in
      ap₂ (λ name e. some (name, e)) (back-shifted username) same;
}

verify-header_csrf_token_example :
    verify_header_csrf_token tokens 10 (codes "bob") (header_csrf_token tokens (codes "bob") 20)
    ≡ (same_codes (codes "bob") (codes "bob") && ltb 10 20)
verify-header_csrf_token_example =
    verify-header_csrf_token tokens laws (codes "bob") (codes "bob") 20 10

abbrev posted : Request
posted = record with_cookie { csrf_header = some (codes "csrf") }

assert_csrf-MayMutate_example : MayMutate tokens config 2000 posted ada_identity
unfolding assert_csrf same_codes
assert_csrf-MayMutate_example = assert_csrf-MayMutate tokens config 2000 posted ada_identity refl

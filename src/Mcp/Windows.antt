-- ===== src/Mcp/Windows.antt =====
-- How many calls a window allows (mcp/src/rate-limit.ts).

use cryptotracker.Base.{
  ℕ, suc, ◌+◌, ◌*◌, ◌≤◌, ◌<◌, min, leb, String, ◌≡◌, refl, ap, ◌∙◌, Option, none, some, List, [],
  ◌∷◌, arith, All, length, if◌then◌else◌,
}
use cryptotracker.Base.Maps
use cryptotracker.Mcp.RateLimit.{
  RateCategory, RateLimitConfig, RateWindow, Windows, limit_of, key_of, window_at, decide, check,
}

-- The calls of one identity in one category, each at its time: the windows after them and how many are allowed.
unfoldable pub check_all : RateLimitConfig → String → RateCategory → List ℕ → Windows → Windows × ℕ
unfolding check
check_all config identity category [] windows = (windows, 0)
check_all config identity category (now ∷ times) windows =
    let (windows', decision) = check config identity category now windows in
    let (windows'', allowed) = check_all config identity category times windows' in
    (windows'', if decision.allowed then suc allowed else allowed)

module _ (config : RateLimitConfig) (identity : String) (category : RateCategory) where
  abbrev stored : Windows → Option RateWindow
  stored windows = Maps.get (key_of identity category) windows

  abbrev counted : RateWindow → RateWindow
  counted window = record window { count = suc window.count }

  check-stored :
      (now : ℕ) (windows : Windows)
      → let window = window_at config now (stored windows) in
        stored (check config identity category now windows).0
        ≡ some (record window { count = suc window.count })
  unfolding check
  check-stored now windows = Maps.get-set_self (key_of identity category) _ windows

  check-allowed :
      (now : ℕ) (windows : Windows)
      → (check config identity category now windows).1.allowed
        ≡ leb (suc (window_at config now (stored windows)).count) (limit_of config category)
  unfolding check decide
  check-allowed now windows = refl

  abbrev count_allowed : List ℕ → Windows → ℕ
  count_allowed times windows = (check_all config identity category times windows).1

  check_all-step :
      (now : ℕ) (times : List ℕ) (windows : Windows)
      → count_allowed (now ∷ times) windows ≡ (
          if leb (suc (window_at config now (stored windows)).count) (limit_of config category)
          then suc (count_allowed times (check config identity category now windows).0)
          else count_allowed times (check config identity category now windows).0)
  unfolding check_all
  check_all-step now times windows = rw (check-allowed now windows) refl

  window_at-in_force :
      (now : ℕ) (window : RateWindow)
      → now < window.reset_at_ms
      → window_at config now (some window) ≡ window
  unfolding window_at
  window_at-in_force now window h = ground arith

  abbrev new_window : ℕ → RateWindow
  new_window now = record { count = 0; reset_at_ms = now + config.window_seconds * 1000 }

  window_at-fresh :
      (now : ℕ) (o : Option RateWindow)
      → ((window : RateWindow) → o ≡ some window → window.reset_at_ms ≤ now)
      → window_at config now o ≡ new_window now
  unfolding window_at
  window_at-fresh now none expired = refl
  window_at-fresh now (some window) expired = let h = expired window refl in ground (arith, h)

  -- While a window is in force, the calls that it allows are those that its count leaves below the limit.
  check_all-in_force :
      (times : List ℕ) (windows : Windows) (window : RateWindow)
      → stored windows ≡ some window
      → All (λ now. now < window.reset_at_ms) times
      → count_allowed times windows + min window.count (limit_of config category)
        ≡ min (window.count + length times) (limit_of config category)
  check_all-in_force [] windows window held within = unfold check_all in omega arith
  check_all-in_force (now ∷ times) windows window held within =
      let same : window_at config now (stored windows) ≡ window =
        ap (window_at config now) held ∙ window_at-in_force now window within.0 in
      let held' : stored (check config identity category now windows).0
          ≡ some (record window { count = suc window.count }) =
        check-stored now windows ∙ ap (λ (w : RateWindow). some (counted w)) same in
      let later =
        check_all-in_force times (check config identity category now windows).0
          (record window { count = suc window.count }) held' within.1 in
      let count : (window_at config now (stored windows)).count ≡ window.count =
        ap (λ w. w.count) same in
      let step = check_all-step now times windows in ground (arith, step, later, count)

  -- Of the calls in a window, from the first one on, exactly the first `limit` are allowed.
  pub check_all-allowed :
      (now : ℕ) (times : List ℕ) (windows : Windows)
      → ((window : RateWindow)
          → Maps.get (key_of identity category) windows ≡ some window
          → window.reset_at_ms ≤ now)
      → All (λ time. time < now + config.window_seconds * 1000) times
      → (check_all config identity category (now ∷ times) windows).1
        ≡ min (suc (length times)) (limit_of config category)
  check_all-allowed now times windows expired within =
      let fresh = window_at-fresh now (stored windows) expired in
      let held : stored (check config identity category now windows).0
          ≡ some (counted (new_window now)) =
        check-stored now windows ∙ ap (λ (w : RateWindow). some (counted w)) fresh in
      let later =
        check_all-in_force times (check config identity category now windows).0
          (counted (new_window now)) held within in
      let count : (window_at config now (stored windows)).count ≡ 0 =
        ap (λ (w : RateWindow). w.count) fresh in
      let step = check_all-step now times windows in ground (arith, step, later, count)

-- ===== src/Mcp/RateLimit.antt =====
-- `McpRateLimiter` (mcp/src/rate-limit.ts): fixed windows, one for each identity and category.
use Prim.Native.String
use cryptotracker.Base.{
  ℕ, suc, ◌+◌, ◌-◌, ◌*◌, ◌/◌, max, leb, String, Bool, Option, none, some, List, if◌then◌else◌,
}
use cryptotracker.Base.Maps

pub data RateCategory : Type 0 where
  read write destructive : RateCategory

pub record RateLimitConfig : Type 0 where
  pub window_seconds : ℕ
  pub read_limit : ℕ
  pub write_limit : ℕ
  pub destructive_limit : ℕ

pub record RateWindow : Type 0 where
  pub count : ℕ
  pub reset_at_ms : ℕ

pub record RateDecision : Type 0 where
  pub allowed : Bool
  pub limit : ℕ
  pub remaining : ℕ
  pub retry_after_seconds : ℕ

abbrev pub Windows : Type 0
Windows = List (String × RateWindow)

-- `this.config[category]`
abbrev pub limit_of : RateLimitConfig → RateCategory → ℕ
limit_of config read = config.read_limit
limit_of config write = config.write_limit
limit_of config destructive = config.destructive_limit

abbrev pub category_name : RateCategory → String
category_name read = "read"
category_name write = "write"
category_name destructive = "destructive"

abbrev pub key_of : String → RateCategory → String
key_of identity category = String.◌++◌ identity (String.◌++◌ ":" (category_name category))

-- The window of a call: the one in force, or a new one.
unfoldable pub window_at : RateLimitConfig → ℕ → Option RateWindow → RateWindow
window_at config now none = record { count = 0; reset_at_ms = now + config.window_seconds * 1000 }
window_at config now (some window) =
    if leb window.reset_at_ms now
    then record { count = 0; reset_at_ms = now + config.window_seconds * 1000 }
    else window

unfoldable pub decide : ℕ → ℕ → RateWindow → RateDecision
decide now limit window = record {
  allowed = leb window.count limit;
  limit = limit;
  remaining = limit - window.count;
  retry_after_seconds = max 1 ((window.reset_at_ms - now + 999) / 1000);
}

unfoldable pub check :
    RateLimitConfig → String → RateCategory → ℕ → Windows → Windows × RateDecision
unfolding window_at decide Maps.get Maps.set
check config identity category now windows =
    let key = key_of identity category in
    let window = window_at config now (Maps.get key windows) in
    let counted = record window { count = suc window.count } in
    (Maps.set key counted windows, decide now (limit_of config category) counted)

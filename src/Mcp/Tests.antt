-- ===== src/Mcp/Tests.antt =====
-- Runs of the MCP limiter and history (mcp/src/rate-limit.ts, mcp/src/history.ts), and the theorems at them.
use cryptotracker.Base.{◌≤◌, String, ◌≡◌, refl, true, false, none, some, [], ◌∷◌, ◌++◌, arith}
use cryptotracker.Base.Maps
use cryptotracker.Mcp.RateLimit.{RateCategory, RateLimitConfig, RateWindow, key_of}
use cryptotracker.Mcp.Windows.{check_all, check_all-allowed}
use cryptotracker.Mcp.History.{HistoryEntry, HistoryConfig, read_entries, slice_last}
use cryptotracker.Mcp.Bounded.{append_all, append_all-last}

abbrev limits : RateLimitConfig
limits = record { window_seconds = 60; read_limit = 3; write_limit = 2; destructive_limit = 1 }

no_window :
    (window : RateWindow)
    → Maps.get (key_of "bot" RateCategory.write) [] ≡ some window
    → window.reset_at_ms ≤ 1000
unfolding Maps.get
no_window window h = absurd (ground (arith, h))

check_all-allowed_example :
    (check_all limits "bot" RateCategory.write (1000 ∷ 2000 ∷ 3000 ∷ 4000 ∷ []) []).1 ≡ 2
check_all-allowed_example =
    check_all-allowed limits "bot" RateCategory.write 1000 (2000 ∷ 3000 ∷ 4000 ∷ []) [] no_window
      (omega arith, (omega arith, (omega arith, tt)))

abbrev entry : String → HistoryEntry
entry id = record {
  timestamp = "2026-01-01";
  request_id = id;
  identity_name = "bot";
  role = "read";
  tool_name = "graphs";
  action = "list";
  applied = false;
  result = "ok";
  source_ip = none;
  arguments = "{}";
}

abbrev store : HistoryConfig
store = record { enabled = true; max_entries = 2 }

append_all-last_example :
    read_entries store (append_all store (entry "2" ∷ entry "3" ∷ []) (some (entry "1" ∷ [])))
    ≡ slice_last 2 (read_entries store (some (entry "1" ∷ [])) ++ entry "2" ∷ entry "3" ∷ [])
append_all-last_example =
    append_all-last store (entry "2") (entry "3" ∷ []) (some (entry "1" ∷ [])) refl (omega arith)

-- ===== src/Mcp.antt =====
-- The MCP server's limiter and its history (mcp/src/rate-limit.ts, mcp/src/history.ts).
pub mod RateLimit
pub mod Windows
pub mod History
pub mod Bounded
mod Tests

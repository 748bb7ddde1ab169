-- ===== src/Tools/Consented.antt =====
-- The writing tools of internal/usecase/eve together: whatever a call sends, a consent covers it.
pub mod Course
pub mod Letters
pub mod Things
pub mod Standings
use eve_online_mcp.Prelude.{ℕ}
use eve_online_mcp.Tools.Serve.{ToolCall}
use eve_online_mcp.Tools.Sound.{Sound}

-- The setting of contacts sends up to four calls, every other tool one.
abbrev pub write_limit : ToolCall → ℕ
write_limit (ToolCall.contacts_set in_) = 4
write_limit call = 1

-- ===== src/Quest.antt =====
-- frontend/api/_lib/quest/: the read path, which answers whether a wallet completed a quest.
pub mod Sources
pub mod Scan
pub mod Poll
pub mod Freshness
pub mod IndexProof
pub mod Cursor
pub mod Quests
pub mod Cache
pub mod Verify
pub mod RateLimit
pub mod Handler
pub mod Setup
pub mod Chain
pub mod Checks
pub mod Daily
mod Examples

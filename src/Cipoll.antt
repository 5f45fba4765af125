-- ===== src/Cipoll.antt =====
-- The pure parts of the CI poller, shared/cipoll: the seed cache, the closed attempt and the pacing.
pub mod Cache
pub mod Ended
pub mod Pacing
pub mod Card
pub mod Track
pub mod Detect

-- ===== src/Text.antt =====
-- Strings that users see and slugs, shared/text.
pub mod Truncate
pub mod Slug

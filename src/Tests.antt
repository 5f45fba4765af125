-- ===== src/Tests.antt =====
-- The theorems at concrete inputs, and small runs of the models.
pub mod SharedCases
pub mod RelayCases
pub mod CiCases
pub mod CipollCases
pub mod EnderCases
pub mod ClientCases
pub mod TrackCases
pub mod WidgetCases
pub mod BambulabCases
pub mod ClientIpCases

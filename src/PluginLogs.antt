-- ===== src/PluginLogs.antt =====
-- src/botster/pluginLogs.ts: the plugin log pages and the view that holds them. Sequence numbers are
-- natural numbers; a record's own content is of any type.
pub mod View
pub mod Sorting
pub mod Invariant
pub mod Delivery

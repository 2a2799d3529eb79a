-- ===== src/Entities.antt =====
-- src/botster/entities.ts: the store of entity frames. A property value is of any type `V`, a
-- sequence is a natural number, and a record is its id with its other properties in order.
pub mod Store
pub mod View
pub mod Ordering
pub mod Keys

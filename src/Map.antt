-- ===== src/Map.antt =====
-- Go's maps as association lists. The order of the list is the order in which a `range` visits the
-- entries, which Go leaves open; an index that some list represents may come in any order.
mod Defs
mod Laws
mod Weight
unfoldable pub use Defs.*
pub use Laws.*
unfoldable pub use Weight.*

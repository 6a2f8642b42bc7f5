-- ===== src/Json.antt =====
-- JSON values, as serde_json keeps them: `serde_json::Value` with the operations that the gateway
-- calls. The map of an object is an association list without repeated keys; no code of the gateway
-- observes its order. A number is an integer, or a float by its bits.
mod Laws
pub use Laws.*
mod Defs
unfoldable pub use Defs.*

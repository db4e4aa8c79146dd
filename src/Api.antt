-- ===== src/Api.antt =====
-- The API objects that the controllers read and write. Their Go types belong to Kubernetes and
-- Karmada; a record here has the fields that the controllers use. A pointer is an `Option`, a slice
-- whose nil the code can tell from an empty one is a `Slice`, and `DeepCopy` is the value itself.
mod Meta
mod Ingress
mod Work
mod Equality
mod Maps
pub use Meta.*
pub use Ingress.*
pub use Work.*
pub use Equality.*
pub use Maps.{same_map_iff}

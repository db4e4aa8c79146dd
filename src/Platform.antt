-- ===== src/Platform.antt =====
-- What the controllers run on: the API client, the cloud provider, and the helpers of the
-- Kubernetes libraries, all of them parameters; and the monad that threads their states.
mod Effects
mod Components
pub mod Retry
pub mod Helpers
pub mod StatusSync
pub mod Runtime
pub mod Keeps
pub mod Ends
pub mod Contract
pub mod Watching
pub use Effects.*
pub use Components.*

-- ===== src/Envoy.antt =====
-- What the source uses of go-control-plane and protobuf, neither of which is part of this repository:
-- the fields that it sets of Envoy's messages, and the library's constants and functions as a record
-- of parameters.
mod Filters
mod Routes
mod Resources
mod Calls
pub use Filters.*
pub use Routes.*
pub use Resources.*
pub use Calls.*

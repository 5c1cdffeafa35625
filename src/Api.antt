-- ===== src/Api.antt =====
-- api/gtc/v1alpha1: the custom resource GRPCListener, as the controller reads it. Strings are texts,
-- a pointer is an `Option`, a slice is a list (nil and empty are one), `int32` and `int64` are
-- integers, `uint32` and `uint64` natural numbers, and a `metav1.Duration` its nanoseconds.
mod Interceptors
mod Matchers
mod Backends
mod Listeners
pub use Interceptors.*
pub use Matchers.*
pub use Backends.*
pub use Listeners.*

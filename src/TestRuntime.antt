-- ===== src/TestRuntime.antt =====
-- pkg/testruntime: how the scenarios build the API objects, and what they assert of the calls of a client.
pub mod Builders
pub mod Settings
pub mod Calls
pub mod Counts

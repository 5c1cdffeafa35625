-- ===== src/Tests.antt =====
-- Runs at fixed inputs: a listener of two backends, its slices, and the clients that watch them.
mod Samples
mod Names
mod Interceptors
mod Routes
mod Clusters
mod Endpoints
mod Watches
mod Notifications
mod Serving
mod Delivery
mod Queue
mod Bootstrap
mod Propagation
mod Runs
mod TestRuntime

-- ===== src/Go.antt =====
-- The parts of Go's standard library that the controller's names go through.
pub mod Path
pub mod Strconv

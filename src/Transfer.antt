-- ===== src/Transfer.antt =====
-- The transfer of a file over one connection, from the request to the close: what the handlers of
-- imonitor.c do in turn, against a system that answers truly and fails no call.
pub mod Among
pub mod Together
pub mod Apart
pub mod Complete
pub mod Defs
pub mod Fresh
pub mod Grown
pub mod HangUp
pub mod Rounds
pub mod Serve
pub mod Session
pub mod Start
pub mod Step
pub mod Visit
pub mod Watch
pub mod Work

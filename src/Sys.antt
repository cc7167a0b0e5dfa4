-- ===== src/Sys.antt =====
-- What the program runs on: the calls it makes and their replies (Sys/Calls), its memory
-- (Sys/Types), the commands over both (Sys/Machine) and what a command promises (Sys/Outcome),
-- and C strings in arrays (Sys/CString).
mod Calls
mod CString
mod Outcome
mod Machine
mod Types
pub use Calls.*
unfoldable pub use CString.*
pub use Outcome.*
unfoldable pub use Machine.*
pub use Types.*

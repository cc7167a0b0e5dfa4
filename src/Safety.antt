-- ===== src/Safety.antt =====
-- Memory safety: the program never faults, whatever the order of the events.
pub mod Answer
pub mod Apart
pub mod Boot
pub mod BootWatch
pub mod DeadEnds
pub mod Done
pub mod DoneWatch
pub mod Effects
pub mod Events
pub mod EventsWatch
pub mod Frame
pub mod Contained
pub mod Log
pub mod Logged
pub mod LogWatch
pub mod Header
pub mod New
pub mod NewWatch
pub mod Next
pub mod ParseEffects
pub mod Path
pub mod Peer
pub mod Program
pub mod Receive
pub mod ReceiveEffects
pub mod ReceiveWatch
pub mod Registered
pub mod System
pub mod Valid
pub mod Work
pub mod WorkWatch

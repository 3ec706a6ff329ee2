-- ===== src/Protocol.antt =====
-- bootloader/src/protocol_mgr.c, with the constants of shared/protocol.h: the module's static
-- variables, the frames that it sends, the command handlers, and the receiver that assembles bytes
-- into frames.
pub mod State
pub mod Send
pub mod Handlers
pub mod Receive
pub mod Transfer
pub mod Data
pub mod Start
pub mod Finish
pub mod Sizes
pub mod Bounds
pub mod Contain
pub mod Buffer
pub mod Wire
pub mod Recognise
pub mod Steady
pub mod Timed
pub mod Damaged
pub mod Session
pub mod Over
pub mod Poll

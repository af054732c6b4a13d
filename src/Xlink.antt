-- ===== src/Xlink.antt =====
-- The message layer of xlink/xlink.h: frames, the receiver, the handlers and sending.
pub mod Message
pub mod Receive
pub mod Registry
pub mod Context

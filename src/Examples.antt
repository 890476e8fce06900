-- ===== src/Examples.antt =====
-- Concrete states of the program, and the theorems of the development at them.
pub mod Queue
pub mod Slots
pub mod Port
pub mod Socket
pub mod Lists
pub mod Sending
pub mod Flushing
pub mod Files
pub mod Modes
pub mod Parsing
pub mod Closing
pub mod Binding
pub mod Opening
pub mod Headers
pub mod Forwarding
pub mod Duplex
pub mod Receiving

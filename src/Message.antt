-- ===== src/Message.antt =====
-- src/osc-message.{h,cpp}: the OSC 1.0 wire codec. A `size_t` position stays below the datagram's
-- size plus 2^32, so its 64 bits never wrap; the 32-bit masks of the source are written out.
pub mod Types
pub mod Read
pub mod Parse
pub mod Build
pub mod Access
pub mod Typed
pub mod Typing
pub mod Rewriting
pub mod Reads
pub mod Bundles
pub mod Safety
pub mod Padding
pub mod Arguments
pub mod RoundTrip

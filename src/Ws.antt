-- ===== src/Ws.antt =====
-- src/osc-ws.{h,cpp}: the websocket server of OSCQuery LISTEN.
pub mod Frame
pub mod Session
pub mod Connection
pub mod RoundTrip
pub mod Bounds
pub mod Leak
pub mod Peers
pub mod Shutdown
pub mod Serving
pub mod Served
pub mod Racing

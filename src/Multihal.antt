-- ===== src/Multihal.antt =====
-- sensors/multihal: the proxy that joins the sub-HALs.
pub mod Types
pub mod Handles
pub mod HalProxy
pub mod Modes
pub mod Direct
pub mod Routing
pub mod Initialize
pub mod Callback
pub mod Setup
pub mod WakeRefs
pub mod PendingWrites
pub mod Waiting
pub mod Fifo
pub mod Drain
pub mod AidlTypes
pub mod Convert
pub mod RoundTrip
pub mod HalProxyAidl
pub mod Unknown
pub mod Counted
pub mod Restart
pub mod Held

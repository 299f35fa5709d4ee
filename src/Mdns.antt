-- ===== src/Mdns.antt =====
-- The mDNS responder (libraries/EpoxymDNS/ESPmDNS.h and ESPmDNS.cpp).
pub mod Maps
pub mod Search
pub mod Collected
pub mod Responder
pub mod Advertise
pub mod Query
pub mod Results
pub mod Async
pub mod Served
mod Tests

-- ===== src/Wifi.antt =====
-- The mock of WiFi (libraries/EpoxyMockWiFi/WiFi.h and WiFi.cpp): the one object of WiFiClass as a
-- record, and its operations as functions on it. `now` is what millis() reads.
pub mod State
pub mod Events
pub mod Station
pub mod Access
pub mod Scan
pub mod Calls
pub mod Outcome
pub mod Queue
pub mod Delivery
pub mod Scanned
pub mod Replay
pub mod Flags
pub mod Runs
pub mod Sockets
mod Tests

-- ===== src/Net.antt =====
-- Sloppy/Net/Net.h and Net.cpp: messages of the network protocols.
pub mod Words
pub mod Out
pub mod In
pub mod RoundTrip
pub mod Safety
pub mod Refusals
pub mod Typed
mod Tests

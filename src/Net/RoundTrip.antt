-- ===== src/Net/RoundTrip.antt =====
-- What one host writes by OutMessage another host reads by InMessage.
pub mod Wire
pub mod Reads
pub mod Items

-- ===== src/Broker.antt =====
-- The StellarBroker path: the guard on streamed transactions, the tap on the socket that applies it,
-- and the mediator flow around both.
pub mod Guard
pub mod Tap
pub mod Flow

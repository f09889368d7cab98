-- ===== src/Episode.antt =====
-- src/rllib_async/protocols/episodes.py: the values that replay commits, evicts and synchronises.
-- The children model the version mapping, the payload timeline and the two codecs.
pub mod Value
pub mod Versions
pub mod Payload
pub mod Envelope
pub mod Checks
pub mod Codec
pub mod Flat
pub mod FlatTrip
pub mod MultiModule
pub mod Timeline
pub mod Ordered
pub mod Located

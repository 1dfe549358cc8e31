-- ===== src/Sdk.antt =====
-- sdk/python/dox_sdk: the builder of events and the client that sends them.
pub mod Builder
pub mod Client
mod Tests

-- ===== src/Cloud.antt =====
-- The cloud side, mailman/cloud: storage, the packs API, the dispatcher and the sync API.
pub mod Samples
pub mod Pack
pub mod Event
pub mod Handshake
pub mod KTemp
pub mod PackApi
pub mod Envelope
pub mod Dispatcher
pub mod Unsub
pub mod Sync
pub mod Svix
pub mod Webhook
pub mod Tokens

-- ===== src/Pubsub.antt =====
-- redis-2.6.12/src/pubsub.c: subscriptions to channels and patterns.
pub mod Defs
pub mod Channels
pub mod Publish
pub mod Order
pub mod Unsubscribe
mod Tests

-- ===== src/Messaging.antt =====
-- internal/messaging: the topic that carries events between the programs. The Kafka client and
-- encoding/json are arguments. An error is its text, and `none` is Go's nil.
pub mod Kafka
pub mod InMemory

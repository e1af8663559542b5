-- ===== src/Client.antt =====
-- The client, python/mq9/client.py: a module for each part of the file, and modules of proofs.
pub mod Types
pub mod Codec
pub mod Subjects
pub mod Connection
pub mod Headers
pub mod Messaging
pub mod Agents
pub mod Consumer
pub mod Keeps
pub mod Bodies
pub mod Mailbox

-- ===== src/Tests.antt =====
-- Runs of the model on concrete inputs, and each theorem at an input that meets its hypotheses.
mod World
mod Client
mod A2a
mod Cancel
mod Store
mod Keyed
mod Mailbox
mod Requests
mod Bodies
mod Group
mod Waiting
mod Lifecycle
mod Broker
mod Demo
mod Scripts
mod Langchain

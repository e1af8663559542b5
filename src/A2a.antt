-- ===== src/A2a.antt =====
-- The A2A facade, python/mq9/a2a: the task store, the event queue, the server and the client side
-- of an agent, and its life cycle.
pub mod Types
pub mod TaskStore
pub mod Events
pub mod Agent
pub mod Dispatch
pub mod Calls
pub mod Lifecycle

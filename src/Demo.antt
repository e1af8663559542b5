-- ===== src/Demo.antt =====
-- The demos, demo/python: a2a_demo.py, with an agent that translates (Translator) and one that
-- sends it a task (Sender), message_demo.py (Messages) and agent_demo.py (Registry). What they
-- print is left out.
pub mod Cards
pub mod Translator
pub mod Sender
pub mod Main
pub mod Messages
pub mod Registry
pub mod Tools
pub mod Graph
pub mod Closes

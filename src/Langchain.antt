-- ===== src/Langchain.antt =====
-- The LangChain tools, langchain-mq9/langchain_mq9: each opens a client, makes its calls, closes
-- the client and returns a text for the language model.
pub mod Inputs
pub mod Session
pub mod Show
pub mod Tools
pub mod Toolkit
pub mod Attributes

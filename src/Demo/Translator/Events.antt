-- ===== src/Demo/Translator/Events.antt =====
-- What the caller of the demo's translator is sent.
use mq.Py.Async.{Async}
use mq.A2a.Agent.{Agent}

-- ===== src/Lib.antt =====
-- The mq9 Python SDK: the client of the mq9 broker, python/mq9/client.py, the A2A agent on top of
-- it, python/mq9/a2a/agent.py, _task_store.py and _executor.py, and the LangChain tools on top of
-- it, langchain-mq9/langchain_mq9/tools.py and toolkit.py, with the scripts that use
-- them, demo/python and langchain-mq9/examples/langgraph_agent.py.
--
-- The parts and how they interact. `Mq9Client` (Client) talks to the broker through nats-py: a
-- plain request, or a publish with headers to a reply inbox. Its mailbox, message and registry
-- operations encode a body, make one request and decode the reply. `consume` starts a background
-- loop that fetches, hands each message to a handler, acknowledges and counts it. `Mq9A2AAgent`
-- (A2a) gives that loop its `_dispatch`, which routes a message to one of four method handlers;
-- they use the task store, which keeps each task as a message with a key, and the event queue,
-- which forwards the user's events to the caller's mailbox. Each LangChain tool (Langchain) opens a
-- client, makes its calls, closes it and returns a text for the language model.
--
-- Base: texts and bytes as lists of native numbers (code points and octets), the integers of JSON,
-- decimal printing and parsing, and the lemmas and names that the parts share.
-- Py: the Python that the SDK stands on. Py.Exceptions: a result is a value or an exception; a
-- cancellation is no `Exception`. Py.Async: a coroutine is a function from the state of the world
-- to a result and the next state, in a do block; `try_except` is `except Exception`, `try_finally`
-- is `finally`. Py.Json, Py.Dumps, Py.Utf8: JSON values, `json.dumps` with its ASCII escapes, and
-- `str.encode`; Py.Utf8.Decode: `bytes.decode`, strict and with `errors="replace"`; Py.Scan: how a
-- JSON string literal is read back; Py.Loads: `json.loads`, a machine that is fed the text.
-- Py.Text: `str.split`, `str.join`. Py.Base64: `base64.b64decode` as it is, lenient, and an encoder
-- for the broker's side. Py.Dict: the header dict as an association list.
-- Client.Types: `Priority`, `Message`, `Mq9Client` (a record of the fields of the object), and the
-- parameters `Nats` (a connection of nats-py) and `Env` (`nats.connect`, `json.loads`,
-- `asyncio.sleep`, and how an f-string prints a value). `json.loads` is a parameter so that the
-- theorems hold for every reader, also of floats and of other encodings; where a theorem needs that
-- it reads back what `json.dumps` writes, the interface `Reads` of Py.Loads.RoundTrip says so, and
-- the `loads` of Py.Loads fills it.
-- Client.Codec: `_encode`, `_decode_response`, `_parse_messages`. Client.Subjects: the templates of
-- the subjects. Client.Headers: the headers of `send`. Client.Connection: `connect`, `close`,
-- `_request`, `_request_with_headers`. Client.Messaging: `mailbox_create`, `send`, `fetch`, `ack`,
-- `query`, `delete`. Client.Agents: `agent_register`, `agent_unregister`, `agent_report`,
-- `agent_discover`. Client.Consumer: `consume` and `Consumer.stop`.
-- Client.Bodies: the bodies of requests as a broker reads them, and the requests that the
-- operations make. Client.Mailbox: a mailbox as
-- protocol.md promises it to a client, `Serves`, with SEND and with FETCH without a group.
-- Client.Consumer.Delivery: the promises on FETCH and ACK with a group, `Queues`, those of a
-- handler, `Delivers`, and what batches and rounds of the consumer do to the messages that wait for
-- the group.
-- A2a.Types: the header and method names, and `Sdk`, what the code uses of a2a-sdk and protobuf.
-- A2a.TaskStore: `Mq9A2ATaskStore`. A2a.Events: `_send_event` and `_ForwardingEventQueue`.
-- A2a.Agent: the object's fields, `on_message`, `_mailbox_of`. A2a.Dispatch: `_dispatch` and the
-- handlers of the four methods. A2a.Calls: `discover`, `send_message`, `get_task`, `list_tasks`,
-- `cancel_task`.
-- A2a.Lifecycle: `connect`, `create_mailbox`, `register`, `unregister`, `close` and the heartbeat,
-- over a `World` that numbers the background tasks.
-- Langchain.Inputs: the input schemas and their defaults. Langchain.Session: `async with
-- Mq9Client`; in Langchain.Session.Watched nats-py with a count of the connections left to close.
-- Langchain.Tools: the `_arun` of the eight tools. Langchain.Show: the texts that they return.
-- Langchain.Toolkit: `Mq9Toolkit.get_tools`. Langchain.Attributes: the names, the descriptions and
-- the schemas of the tool classes, and the parameters of `_arun`.
-- Demo.Cards, Demo.Translator, Demo.Sender: the cards, agent A and agent B of a2a_demo.py, with
-- `run_agent`, `run_client` and `run_both`. Demo.Main: its command line. Demo.Messages:
-- message_demo.py. Demo.Registry: agent_demo.py.
-- Demo.Tools: `manual_demo` of langchain_demo.py, and in Demo.Tools.Names its `tools_by_name`.
-- Demo.Graph: the graph of langchain-mq9/examples/langgraph_agent.py.
-- The modules below a part hold its theorems. Tests runs the definitions and the theorems on small
-- inputs.
--
-- Bounds and fuel. `rounds n` and `heartbeats n` are the first `n` rounds of loops that the code
-- never leaves, and `run_nodes n` the first `n` nodes of the graph, for any `n`. The message
-- demo's consumer runs for some number of rounds. `digits` prints a number with the number itself
-- as fuel, which is enough since each step divides by ten; Base.Decimal.Parse reads the digits
-- back. Integers are those of Python, without bound. Time-outs are numbers of milliseconds.
--
-- Not modelled: logging; floats in JSON, and JSON text in UTF-16 or UTF-32; the interleaving of two
-- coroutines inside an `await`, which is part of what the parameters do to the state; the event
-- loop's own errors. nats-py, a2a-sdk and protobuf are parameters, as `json.loads` is to the
-- client, with what their documents and protocol.md promise as hypotheses of the theorems that need
-- it. `_encode` in the model fails for texts with lone surrogates as `str.encode` does. An address
-- that is no text in a reply of MAILBOX.CREATE, which protocol.md excludes, is refused by the A2A
-- part and the demos of the model, where Python passes it on. Of the tools, `_run`, which starts an
-- event loop for `_arun`, and the validation of the inputs are left out; of the demos, what they
-- print. The scripts that hand the tools to a language model and the SDKs in other languages are
-- not part of the model.
pub mod Base
pub mod Py
pub mod Client
pub mod A2a
pub mod Langchain
pub mod Demo
mod Tests

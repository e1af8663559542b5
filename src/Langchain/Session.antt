-- ===== src/Langchain/Session.antt =====
-- `async with Mq9Client(server) as client`: `__aenter__` and `__aexit__` of python/mq9/client.py.
pub mod Watched
use mq.Base.{Text}
use mq.Py.Async.{Async, ◌>>=◌, try_finally}
use mq.Client.Types.{Env, Mq9Client}
use mq.Client.Connection.{new_client, connect, close}

module _ {S A : Type 0} (env : Env S) where
  -- `__aexit__` returns nothing, so an exception of the body goes on after it.
  unfoldable pub within : Mq9Client S → (Mq9Client S → Async S A) → Async S A
  within client body = try_finally (body client) (close client)

  -- A client that cannot connect is not closed. The time-out is the client's default.
  unfoldable pub with_client : Text → (Mq9Client S → Async S A) → Async S A
  unfolding within
  with_client server body = do client ← connect env (new_client server 5000); within client body

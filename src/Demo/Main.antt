-- ===== src/Demo/Main.antt =====
-- The command line of demo/python/a2a_demo.py.
use mq.Base.{ℕ, Text, codes, text_eq, false, ◌≡◌, refl, List, [], ◌∷◌, if◌then◌else◌}
use mq.Py.Async.{Async, pure, ◌>>◌}
use mq.Client.Types.{Env}
use mq.A2a.Types.{Sdk}
use mq.A2a.Lifecycle.{World}
use mq.Demo.Translator.{Parts, make_agent_a, run_agent}
use mq.Demo.Sender.{client_on, run_both}

-- `sys.argv[1] if len(sys.argv) > 1 else "both"`
abbrev pub mode_of : List Text → Text
mode_of (program ∷ mode ∷ more) = mode
mode_of _ = codes "both"

module _ (sdk : Sdk) (parts : Parts sdk) {S : Type 0} (env : Env S) (wait : Async S (Unit {0}))
    (server : Text) where
  -- A coroutine of an agent A that has just been made.
  abbrev with_agent_a : Async (World sdk S) (Unit {0}) → Async S (Unit {0})
  with_agent_a m s =
      let r = m (record {
        agent = make_agent_a sdk parts server;
        net = s;
        running = [];
        next_task = 0;
        counts = λ k. 0;
      }) in
      (r.0, r.1.net)

  abbrev pub agent_mode : Async S (Unit {0})
  agent_mode = with_agent_a (run_agent sdk parts env wait)

  abbrev pub client_mode : Async S (Unit {0})
  client_mode = client_on sdk parts env server

  abbrev pub both_mode : Async S (Unit {0})
  both_mode = with_agent_a (run_both sdk parts env server)

  -- The exit status. A word that is no mode prints the usage, and is 1.
  unfoldable pub main : List Text → Async S ℕ
  main argv =
      if text_eq (mode_of argv) (codes "agent")
      then agent_mode >> pure 0
      else if text_eq (mode_of argv) (codes "client")
      then client_mode >> pure 0
      else if text_eq (mode_of argv) (codes "both")
      then both_mode >> pure 0
      else pure 1

  -- With no word on its command line the demo runs both agents, as it does for the word `both`, and
  -- with an unknown word it touches nothing and exits with 1.
  main-modes :
      (program word : Text) (more : List Text)
      → text_eq word (codes "agent") ≡ false
      → text_eq word (codes "client") ≡ false
      → text_eq word (codes "both") ≡ false
      → (main (program ∷ []) ≡ main (program ∷ codes "both" ∷ more))
        × (main (program ∷ word ∷ more) ≡ pure 1)
  unfolding main text_eq
  main-modes program word more a c b = (refl, rw (a, c, b) refl)

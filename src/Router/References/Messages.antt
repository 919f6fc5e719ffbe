-- ===== src/Router/References/Messages.antt =====
-- Every message of a client that keeps to the protocol keeps the held buffers in use.
use udaq.Base.{ℕ, Bool, arith}
use udaq.Router.Protocol.{Msg}
use udaq.Router.Outbox.{Reply}
use udaq.Router.State.{Router}
use udaq.Router.Messages.{message}
use udaq.Router.References.{Safe}
use udaq.Router.References.Release.{release_buf-Safe}
use udaq.Router.References.Grant.{get_buf-Safe, new_pl-Safe}
use udaq.Router.References.Remove.{drop_proc-holders}
use udaq.Router.References.Purge.{Keeps}
use udaq.Router.References.Protocol.{HeldKept, message-keeps}

module _ (malloc : ℕ → Bool) (msgsnd : ℕ → Reply) where
  Safe-HeldKept : HeldKept malloc msgsnd Safe
  Safe-HeldKept = record {
    on_release = release_buf-Safe malloc msgsnd;
    on_grant = get_buf-Safe malloc;
    on_join = new_pl-Safe malloc;
    on_drop = λ pid r e v b. omega (arith, v b, drop_proc-holders b pid r.pl);
    on_queues = λ o i n e r v. v;
  }

  -- Every message of a sender that keeps to the protocol leaves no buffer held more often than it is
  -- counted: none that a process still holds goes back to the free list. To keep to the protocol is to
  -- release only what one holds and, at a disconnection, to hold the buffers of all messages that wait.
  pub message-Safe :
      (m : Msg) (r : Router) → Keeps m.cmd m r → Safe r → Safe (message malloc msgsnd m r).1
  message-Safe m r k v = message-keeps Safe-HeldKept m r k v

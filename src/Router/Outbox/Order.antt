-- ===== src/Router/Outbox/Order.antt =====
-- Messages leave in the order in which they were queued, and none is lost.
use udaq.Base.{
  ◌⊎◌, inl, inr, same, ℕ, ◌+◌, ◌-◌, ◌≤◌, ◌≡◌, refl, ap, false, List, [], ◌∷◌, ◌++◌, arith, ℤ, pos,
  at_least, length, if-either,
}
use mathlib.Core.List.{append_assoc}
use udaq.Router.Protocol.{Msg}
use udaq.Router.Outbox.{Reply, Outbox, num_msg_limit, send_all, que_snd}

-- All messages that are on their way, oldest first.
abbrev pub log : Outbox → List Msg
log o = o.kernel ++ o.que

-- `que_count` counts at least the nodes of the ring.
abbrev pub Counted : Outbox → Type 0
Counted o = length o.que ≤ o.que_count

-- What the loop of `que_snd` comes to: nothing is lost or reordered, the count stays right, and with
-- the result 0 nothing is left.
abbrev pub Flushed : Outbox → ℤ × Outbox → Type 0
Flushed o (code, o') =
    (log o' ≡ log o)
    × (o'.que_count + length o.que ≡ o.que_count + length o'.que)
    × ((o'.que ≡ []) ⊎ (same code (pos 0) ≡ false))

module _ (msgsnd : ℕ → Reply) where
  -- The state after `msgsnd` took the first message.
  abbrev passed : Msg → List Msg → Outbox → Outbox
  passed m ms o = record o {
    que = ms;
    que_count = o.que_count - 1;
    kernel = o.kernel ++ m ∷ [];
    calls = o.calls + 1;
  }

  send_all-log : (ms : List Msg) (o : Outbox) → o.que ≡ ms → log (send_all msgsnd ms o).1 ≡ log o
  unfolding send_all
  send_all-log [] o e = refl
  send_all-log (m ∷ ms) o e =
      ground (arith, send_all-log ms (passed m ms o), append_assoc o.kernel (m ∷ []) ms)

  send_all-count :
      (ms : List Msg) (o : Outbox)
      → o.que ≡ ms
      → Counted o
      → (send_all msgsnd ms o).1.que_count + length ms
        ≡ o.que_count + length (send_all msgsnd ms o).1.que
  unfolding send_all
  send_all-count [] o e h = ground arith
  send_all-count (m ∷ ms) o e h = ground (arith, ap length e, send_all-count ms (passed m ms o))

  send_all-done :
      (ms : List Msg) (o : Outbox)
      → o.que ≡ ms
      → ((send_all msgsnd ms o).1.que ≡ []) ⊎ (same (send_all msgsnd ms o).0 (pos 0) ≡ false)
  unfolding send_all
  send_all-done [] o e = inl e
  send_all-done (m ∷ ms) o e = ground (arith, send_all-done ms (passed m ms o))

  -- Whatever the system answers, `que_snd` loses and reorders no message.
  pub que_snd-log : (z : ℤ) (o : Outbox) → log (que_snd msgsnd z o).1 ≡ log o
  unfolding que_snd
  que_snd-log z o = ground (arith, send_all-log o.que o refl)

  -- Where the count is at least that of the messages in the ring, and whatever the system answers,
  -- `que_snd` loses and reorders no message, takes as many off the count as it sends, and with the
  -- result 0 it has sent all of them.
  pub que_snd-Flushed : (z : ℤ) (o : Outbox) → Counted o → Flushed o (que_snd msgsnd z o)
  unfolding que_snd
  que_snd-Flushed z o h =
      if-either (Flushed o) (at_least z (num_msg_limit + o.que_count)) (refl, refl, inr refl)
        (send_all-log o.que o refl, send_all-count o.que o refl h, send_all-done o.que o refl)

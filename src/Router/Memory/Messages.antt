-- ===== src/Router/Memory/Messages.antt =====
-- Every message keeps the memory divided, and no message puts requests of no bytes into a queue.
use udaq.Base.{
  ℕ, zero, suc, ◌<◌, ◌≡◌, Bool, Option, some, List, [], ◌∷◌, arith, ◌==◌, ℤ, pos, negsuc, All, inl,
  inr, Bool-cases,
}
use udaq.Router.Shm.{Shm}
use udaq.Router.Protocol.{Msg, Cmd, connect, disconnect, refuse, buffer, release, getbuf, terminate}
use udaq.Router.Outbox.{Reply}
use udaq.Router.State.{Router}
use udaq.Router.Holds.{no_size}
use udaq.Router.Buffers.{get_buf, new_pl, send_msg, release_buf}
use udaq.Router.Messages.{
  is_buffer, split_for, do_connect, release_buffers, release_queued, purge_que, purge_kernel,
  purge_inbox, do_disconnect, do_release, answer, do_getbuf, dispatch, message,
}
use udaq.Router.Frame.{Rest, get_buf-Rest, release_buf-Rest, remove_pl-Rest}
use udaq.Router.Memory.{RouterOk}
use udaq.Router.Memory.Release.{release_buf-RouterOk, remove_pl-RouterOk}
use udaq.Router.Memory.Grant.{get_buf-RouterOk}

-- A request for a buffer asks for at least a byte.
abbrev pub SaneArg : Cmd → ℕ → Type 0
SaneArg getbuf n = 0 < n
SaneArg _ n = Unit {0}

abbrev pub IsSane : Msg → Type 0
IsSane m = SaneArg m.cmd m.arg0

-- The memory is divided, and the messages that wait and that come in are sane.
pub record SystemOk (r : Router) : Type 0 where
  pub memory : RouterOk r
  pub waiting : All IsSane r.pending
  pub coming : All IsSane r.inbox

SystemOk-Rest : (r r' : Router) → Rest r r' → RouterOk r' → SystemOk r → SystemOk r'
SystemOk-Rest r r' e m v = record {
  memory = m;
  waiting = rw e.1 v.waiting;
  coming = rw e.2 v.coming;
}

-- The memory is the same too.
abbrev Quiet : Router → Router → Type 0
Quiet r r' = Rest r r' × (r'.used ≡ r.used) × (r'.free ≡ r.free)

SystemOk-Quiet : (r r' : Router) → Quiet r r' → SystemOk r → SystemOk r'
SystemOk-Quiet r r' e v = SystemOk-Rest r r' e.0 (rw (e.0.0, e.1, e.2) v.memory) v

split_for-All : (P : Msg → Type 0) (pid : ℕ) (ms : List Msg) → All P ms → All P (split_for pid ms).1
unfolding split_for
split_for-All P pid [] h = tt
split_for-All P pid (m ∷ ms) h = elim (Bool-cases (m.mtype == pid)) [
  | inl e ↦ rw e (split_for-All P pid ms h.1)
  | inr e ↦ rw e (h.0, split_for-All P pid ms h.1)
]

module _ (malloc : ℕ → Bool) (msgsnd : ℕ → Reply) where
  release_buf-SystemOk :
      (pid buf size : ℕ) (r : Router)
      → SystemOk r
      → SystemOk (release_buf malloc msgsnd pid buf size r).1
  release_buf-SystemOk pid buf size r v =
      SystemOk-Rest r _ (release_buf-Rest malloc msgsnd pid buf size r)
        (release_buf-RouterOk malloc msgsnd pid buf size r v.memory) v

  send_msg-SystemOk :
      (mtype : ℕ) (cmd : Cmd) (a b c : ℕ) (r : Router)
      → SystemOk r
      → SystemOk (send_msg malloc msgsnd mtype cmd a b c r)
  unfolding send_msg
  send_msg-SystemOk mtype cmd a b c r v = record {
    memory = v.memory;
    waiting = v.waiting;
    coming = v.coming;
  }

  -- A connection changes neither the memory nor the queues of messages that wait or come in.
  do_connect-Quiet : (m : Msg) (r : Router) → Quiet r (do_connect malloc msgsnd m r)
  unfolding do_connect new_pl send_msg
  do_connect-Quiet m r = ground arith

  do_connect-SystemOk :
      (m : Msg) (r : Router) → SystemOk r → SystemOk (do_connect malloc msgsnd m r)
  do_connect-SystemOk m r v = SystemOk-Quiet r _ (do_connect-Quiet m r) v

  release_buffers-SystemOk :
      (pid : ℕ) (ms : List Msg) (r : Router)
      → SystemOk r
      → SystemOk (release_buffers malloc msgsnd pid ms r)
  unfolding release_buffers
  release_buffers-SystemOk pid [] r v = v
  release_buffers-SystemOk pid (m ∷ ms) r v = elim (Bool-cases (is_buffer m.cmd)) [
    | inl e ↦ rw e (release_buffers-SystemOk pid ms _ (release_buf-SystemOk pid m.arg0 no_size r v))
    | inr e ↦ rw e (release_buffers-SystemOk pid ms r v)
  ]

  release_queued-SystemOk :
      (pid : ℕ) (ms : List Msg) (r : Router)
      → SystemOk r
      → SystemOk (release_queued malloc msgsnd pid ms r)
  unfolding release_queued
  release_queued-SystemOk pid [] r v = v
  release_queued-SystemOk pid (m ∷ ms) r v =
      release_queued-SystemOk pid ms _ (release_buf-SystemOk pid m.arg0 no_size r v)

  purge_que-SystemOk :
      (pid : ℕ) (r : Router) → SystemOk r → SystemOk (purge_que malloc msgsnd pid r)
  unfolding purge_que
  purge_que-SystemOk pid r v =
      let w = release_queued-SystemOk pid (split_for pid r.outbox.que).0 r v in
      record { memory = w.memory; waiting = w.waiting; coming = w.coming }

  purge_kernel-SystemOk :
      (pid : ℕ) (r : Router) → SystemOk r → SystemOk (purge_kernel malloc msgsnd pid r)
  unfolding purge_kernel
  purge_kernel-SystemOk pid r v =
      let w = release_buffers-SystemOk pid (split_for pid r.outbox.kernel).0 r v in
      record { memory = w.memory; waiting = w.waiting; coming = w.coming }

  purge_inbox-SystemOk :
      (pid : ℕ) (r : Router) → SystemOk r → SystemOk (purge_inbox malloc msgsnd pid r)
  unfolding purge_inbox
  purge_inbox-SystemOk pid r v =
      let w = release_buffers-SystemOk pid (split_for pid r.inbox).0 r v in
      record {
        memory = w.memory;
        waiting = w.waiting;
        coming = split_for-All IsSane pid r.inbox v.coming;
      }

  do_disconnect-SystemOk :
      (pid : ℕ) (r : Router) → SystemOk r → SystemOk (do_disconnect malloc msgsnd pid r)
  unfolding do_disconnect
  do_disconnect-SystemOk pid r v =
      let w =
        purge_inbox-SystemOk pid _ (purge_kernel-SystemOk pid _ (purge_que-SystemOk pid r v)) in
      SystemOk-Rest _ _ (remove_pl-Rest malloc msgsnd pid _)
        (remove_pl-RouterOk malloc msgsnd pid _ w.memory) w

  do_release-SystemOk :
      (m : Msg) (r : Router) → SystemOk r → SystemOk (do_release malloc msgsnd m r).1
  unfolding do_release
  do_release-SystemOk m r v = ground (arith, release_buf-SystemOk m.pid m.arg0 m.arg1 r v)

  answer-SystemOk :
      (pid : ℕ) (t : ℤ × Option Shm × Router)
      → SystemOk t.2
      → SystemOk (answer malloc msgsnd pid t).1
  unfolding answer
  answer-SystemOk pid (negsuc zero, s, r) v = send_msg-SystemOk pid refuse 0 0 0 r v
  answer-SystemOk pid (pos zero, some n, r) v = send_msg-SystemOk pid buffer n.buf n.size 0 r v
  answer-SystemOk pid (pos (suc (suc zero)), s, r) v = v
  answer-SystemOk pid (pos (suc zero), s, r) v = v
  answer-SystemOk pid (_, s, r) v = v

  do_getbuf-SystemOk :
      (m : Msg) (r : Router) → 0 < m.arg0 → SystemOk r → SystemOk (do_getbuf malloc msgsnd m r).1
  unfolding do_getbuf
  do_getbuf-SystemOk m r p v = answer-SystemOk m.pid (get_buf malloc m.pid m.arg0 r) (
      SystemOk-Rest r _ (get_buf-Rest malloc m.pid m.arg0 r)
        (get_buf-RouterOk malloc m.pid m.arg0 r p v.memory) v)

  dispatch-SystemOk :
      (cmd : Cmd) (m : Msg) (r : Router)
      → SaneArg cmd m.arg0
      → SystemOk r
      → SystemOk (dispatch malloc msgsnd cmd m r).1
  unfolding dispatch
  dispatch-SystemOk connect m r p v = do_connect-SystemOk m r v
  dispatch-SystemOk disconnect m r p v = do_disconnect-SystemOk m.pid r v
  dispatch-SystemOk release m r p v = do_release-SystemOk m r v
  dispatch-SystemOk getbuf m r p v = do_getbuf-SystemOk m r p v
  dispatch-SystemOk terminate m r p v = record {
    memory = v.memory;
    waiting = v.waiting;
    coming = v.coming;
  }
  dispatch-SystemOk _ m r p v = v

  -- Every message that asks for at least a byte keeps the memory divided and the queues sane.
  pub message-SystemOk :
      (m : Msg) (r : Router) → IsSane m → SystemOk r → SystemOk (message malloc msgsnd m r).1
  unfolding message
  message-SystemOk m r p v = dispatch-SystemOk m.cmd m r p v

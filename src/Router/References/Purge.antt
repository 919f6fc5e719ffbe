-- ===== src/Router/References/Purge.antt =====
-- The buffers that are on their way to a process, and what a process that keeps to the protocol holds.
use udaq.Base.{
  ℕ, ◌+◌, ◌≤◌, ◌<◌, ◌≡◌, refl, Bool, List, [], ◌∷◌, ◌++◌, arith, leb, if◌then◌else◌, inl, inr,
  Option-cases,
}
use udaq.Router.Protocol.{Msg, Cmd, disconnect, release, is_writer}
use udaq.Router.Outbox.{Reply}
use udaq.Router.State.{Proc, Router, find_proc, at_proc, flag_or_head}
use udaq.Router.Holds.{no_size, pl_remove_buf, find_used, drop_ref}
use udaq.Router.Buffers.{release_found, release_buf}
use udaq.Router.Messages.{is_buffer, split_for, release_buffers, release_queued}
use udaq.Router.References.{hit, count, held_by, pl_remove_buf-count}
use udaq.Router.References.Remove.{release_buf-pl, pl_remove_buf-pid, and-false}

remove-held_by :
    (b buf pid : ℕ) (pl : List Proc)
    → held_by pid b (at_proc (pl_remove_buf buf) pid pl)
        + (if leb 1 (held_by pid buf pl) then hit b buf else 0)
      ≡ held_by pid b pl
unfolding at_proc find_proc
remove-held_by b buf pid [] = ground arith
remove-held_by b buf pid (p ∷ ps) =
    ground
      (arith, pl_remove_buf-count b buf p, pl_remove_buf-pid buf p, remove-held_by b buf pid ps)

-- The positions that messages name, and those of the messages that hand a buffer out.
abbrev pub positions : List Msg → List ℕ
positions [] = []
positions (m ∷ ms) = m.arg0 ∷ positions ms

abbrev pub buffers : List Msg → List ℕ
buffers [] = []
buffers (m ∷ ms) = if is_buffer m.cmd then m.arg0 ∷ buffers ms else buffers ms

-- The process with the pid holds all buffers of a list, each as often as it stands there.
abbrev pub HoldsAll : ℕ → List ℕ → List Proc → Type 0
HoldsAll pid bs pl = (b : ℕ) → count b bs ≤ held_by pid b pl

-- The buffers that the router takes back from the queues when the process disconnects.
abbrev pub outstanding : ℕ → Router → List ℕ
outstanding pid r =
    positions (split_for pid r.outbox.que).0
    ++ (buffers (split_for pid r.outbox.kernel).0 ++ (buffers (split_for pid r.inbox).0 ++ []))

-- What the protocol asks of the sender of a message: it releases only what it holds, and when it
-- disconnects it holds the buffers of all messages that wait for it.
abbrev pub Keeps : Cmd → Msg → Router → Type 0
Keeps release m r = 0 < held_by m.pid m.arg0 r.pl
Keeps disconnect m r = HoldsAll m.pid (outstanding m.pid r) r.pl
Keeps _ m r = Unit {0}

module _ (malloc : ℕ → Bool) (msgsnd : ℕ → Reply) where
  pub forced-HoldsAll :
      (pid buf : ℕ) (bs : List ℕ) (r : Router)
      → HoldsAll pid (buf ∷ bs) r.pl
      → HoldsAll pid bs (release_buf malloc msgsnd pid buf no_size r).1.pl
  forced-HoldsAll pid buf bs r h b =
      rw (release_buf-pl malloc msgsnd pid buf r)
        (ground (arith, h b, h buf, remove-held_by b buf pid r.pl))

  -- A forced release leaves the queues alone.
  forced-queues :
      (pid buf : ℕ) (r : Router)
      → ((release_buf malloc msgsnd pid buf no_size r).1.outbox ≡ r.outbox)
        × ((release_buf malloc msgsnd pid buf no_size r).1.inbox ≡ r.inbox)
  unfolding release_buf release_found drop_ref
  forced-queues pid buf r = elim (Option-cases (find_used buf r.used)) [
    | inl e ↦ rw (e, release_buf) (refl, refl)
    | inr ((before, s, after), e) ↦
        rw (e, release_buf)
          (rw (and-false (is_writer (flag_or_head (find_proc pid r.pl)))) (ground arith))
  ]

  pub release_queued-queues :
      (pid : ℕ) (ms : List Msg) (r : Router)
      → ((release_queued malloc msgsnd pid ms r).outbox ≡ r.outbox)
        × ((release_queued malloc msgsnd pid ms r).inbox ≡ r.inbox)
  unfolding release_queued
  release_queued-queues pid [] r = (refl, refl)
  release_queued-queues pid (m ∷ ms) r = ground (
    arith,
    forced-queues pid m.arg0 r,
    release_queued-queues pid ms (release_buf malloc msgsnd pid m.arg0 no_size r).1,
  )

  pub release_buffers-queues :
      (pid : ℕ) (ms : List Msg) (r : Router)
      → ((release_buffers malloc msgsnd pid ms r).outbox ≡ r.outbox)
        × ((release_buffers malloc msgsnd pid ms r).inbox ≡ r.inbox)
  unfolding release_buffers
  release_buffers-queues pid [] r = (refl, refl)
  release_buffers-queues pid (m ∷ ms) r = ground (
    arith,
    forced-queues pid m.arg0 r,
    release_buffers-queues pid ms (release_buf malloc msgsnd pid m.arg0 no_size r).1,
    release_buffers-queues pid ms r,
  )

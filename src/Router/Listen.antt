-- ===== src/Router/Listen.antt =====
-- The main loop of the router: do_listen and listen of src/router/src/listen.c, and the steps that a
-- router takes among its clients.
use udaq.Base.{
  ℕ, zero, suc, ◌+◌, ◌≡◌, Bool, false, Option, none, some, List, [], ◌∷◌, ◌++◌, ◌==◌, if◌then◌else◌,
  ℤ, pos, length,
}
use udaq.Router.Protocol.{Msg, mtype_router}
use udaq.Router.Outbox.{Reply, que_snd}
use udaq.Router.State.{Router, start}
use udaq.Router.Messages.{message}

-- What a call of `do_listen` comes to: 0, a result that ends the loop of `listen`, or no message is
-- there and the call waits in `msgrcv`.
pub data Outcome : Type 0 where
  again ended waits : Outcome

-- `switch(res)`: 0, 1 and the default.
pub data Switch : Type 0 where
  done wait stop : Switch

abbrev pub switch : ℤ → Switch
switch (pos zero) = done
switch (pos (suc zero)) = wait
switch _ = stop

unfoldable pub next {ℓ} : {A : Type ℓ} → Switch → A → A → A → A
next done a b c = a
next wait a b c = b
next stop a b c = c

-- `msgrcv(id, ..., mtype, ...)` takes the first message of a type.
unfoldable pub receive_as : ℕ → List Msg → Option (Msg × List Msg)
receive_as mtype [] = none
receive_as mtype (m ∷ ms) =
    if m.mtype == mtype
    then some (m, ms)
    else elim (receive_as mtype ms) [ none ↦ none | some (n, rest) ↦ some (n, m ∷ rest) ]

module _ (malloc : ℕ → Bool) (msgsnd : ℕ → Reply) where
  -- A new message that has to wait goes to the end of the ring; without memory it is dropped.
  unfoldable pub put_off : Msg → Router → Router
  put_off m r =
      if malloc r.allocs
      then record r { pending = r.pending ++ m ∷ []; allocs = r.allocs + 1 }
      else record r { allocs = r.allocs + 1 }

  -- The body of the loop that gets messages, by the message that `msgrcv` gives; `more` is the next
  -- round.
  unfoldable pub attend :
      (Router → Outcome × Router) → Option (Msg × List Msg) → Router → Outcome × Router
  unfolding put_off next
  attend more none r = (waits, r)
  attend more (some (m, rest)) r =
      let (res, r') = message malloc msgsnd m (record r { inbox = rest }) in
      next (switch res) (again, r') (more (put_off m r')) (ended, r')

  -- The fuel is the number of messages that are there, and one.
  unfoldable pub take_new : ℕ → Router → Outcome × Router
  unfolding attend
  take_new zero r = (waits, r)
  take_new (suc fuel) r =
      if r.inbox_open
      then attend (take_new fuel) (receive_as mtype_router r.inbox) r
      else (ended, r)

  -- The messages that wait are tried in order; the first that can be done leaves the ring.
  unfoldable pub try_pending : List Msg → List Msg → Router → Outcome × Router
  unfolding next
  try_pending before [] r = take_new (suc (length r.inbox)) r
  try_pending before (m ∷ ms) r =
      let (res, r') = message malloc msgsnd m r in
      let more = try_pending (before ++ m ∷ []) ms r' in
      next (switch res) (again, record r' { pending = before ++ ms }) more (ended, r')

  unfoldable pub do_listen : Router → Outcome × Router
  do_listen r =
      let r' : Router = record r { outbox = (que_snd msgsnd r.msg_count r.outbox).1 } in
      try_pending [] r'.pending r'

  -- A round of `listen`, or what happens outside: a client sends a message, a client takes one of the
  -- messages for it, or the queue is removed.
  pub data Step : Router → Router → Type 0 where
    serve : (r : Router) → r.end_flag ≡ false → Step r (do_listen r).1
    arrive : (m : Msg) (r : Router) → Step r (record r { inbox = r.inbox ++ m ∷ [] })
    take :
        (pid : ℕ) (m : Msg) (rest : List Msg) (r : Router)
        → receive_as pid r.outbox.kernel ≡ some (m, rest)
        → Step r (record r { outbox = record (r.outbox) { kernel = rest } })
    close : (r : Router) → Step r (record r { inbox_open = false })

  -- The states that a router with `n` bytes of shared memory reaches, whatever the clients send.
  pub data Reach (n : ℕ) : Router → Type 0 where
    begin : Reach n (start n)
    later : {r r' : Router} → Reach n r → Step r r' → Reach n r'

-- ===== src/Router/Memory/Listen.antt =====
-- The memory stays divided in every state that the router reaches among its clients.
use udaq.Base.{
  ℕ, zero, suc, ◌<◌, Bool, Option, none, some, List, [], ◌∷◌, ◌++◌, ◌==◌, All, All-append, inl, inr,
  Bool-cases, Option-cases, if-either, length,
}
use udaq.Router.Protocol.{Msg, mtype_router}
use udaq.Router.Outbox.{Reply}
use udaq.Router.State.{Router, start}
use udaq.Router.Messages.{message}
use udaq.Router.Listen.{
  Outcome, Switch, done, wait, stop, switch, next, receive_as, put_off, attend, take_new,
  try_pending, do_listen, Step, serve, arrive, take, close,
}
use udaq.Router.Memory.{RouterOk, init_shm-MemOk}
use udaq.Router.Memory.Messages.{IsSane, SystemOk, message-SystemOk}

-- What holds of all messages of a queue holds of the one that is taken and of the others.
abbrev AllGot : (Msg → Type 0) → Option (Msg × List Msg) → Type 0
AllGot P none = Unit {0}
AllGot P (some (m, rest)) = P m × All P rest

receive_as-AllGot :
    (P : Msg → Type 0) (mtype : ℕ) (ms : List Msg) → All P ms → AllGot P (receive_as mtype ms)
unfolding receive_as
receive_as-AllGot P mtype [] h = tt
receive_as-AllGot P mtype (n ∷ ms) h = elim (Bool-cases (n.mtype == mtype)) [
  | inl t ↦ rw t h
  | inr t ↦ elim (Option-cases (receive_as mtype ms)) [
    | inl g ↦ rw (t, g, receive_as) tt
    | inr ((k, rest), g) ↦
        let (hk, hr) = rw g at (receive_as-AllGot P mtype ms h.1) in
        rw (t, g, receive_as) (hk, (h.0, hr))
  ]
]

module _ (malloc : ℕ → Bool) (msgsnd : ℕ → Reply) where
  put_off-SystemOk :
      (m : Msg) (r : Router) → IsSane m → SystemOk r → SystemOk (put_off malloc msgsnd m r)
  unfolding put_off
  put_off-SystemOk m r p v = elim (Bool-cases (malloc r.allocs)) [
    | inl e ↦
        rw (e, put_off)
          (record {
            memory = v.memory;
            waiting = All-append IsSane r.pending (m ∷ []) v.waiting (p, tt);
            coming = v.coming;
          })
    | inr e ↦ rw (e, put_off) (record { memory = v.memory; waiting = v.waiting; coming = v.coming })
  ]

  next-SystemOk :
      (s : Switch) (a b c : Outcome × Router)
      → SystemOk a.1
      → SystemOk b.1
      → SystemOk c.1
      → SystemOk (next s a b c).1
  unfolding next
  next-SystemOk done a b c p q t = p
  next-SystemOk wait a b c p q t = q
  next-SystemOk stop a b c p q t = t

  attend-SystemOk :
      (more : Router → Outcome × Router) (o : Option (Msg × List Msg)) (r : Router)
      → ((r' : Router) → SystemOk r' → SystemOk (more r').1)
      → AllGot IsSane o
      → SystemOk r
      → SystemOk (attend malloc msgsnd more o r).1
  unfolding attend
  attend-SystemOk more none r keep h v = v
  attend-SystemOk more (some (m, rest)) r keep h v =
      let r₁ : Router = record r { inbox = rest } in
      let v₁ : SystemOk r₁ = record { memory = v.memory; waiting = v.waiting; coming = h.1 } in
      let w = message-SystemOk malloc msgsnd m r₁ h.0 v₁ in
      next-SystemOk (switch (message malloc msgsnd m r₁).0) _ _ _ w
        (keep _ (put_off-SystemOk m (message malloc msgsnd m r₁).1 h.0 w)) w

  take_new-SystemOk :
      (fuel : ℕ) (r : Router) → SystemOk r → SystemOk (take_new malloc msgsnd fuel r).1
  unfolding take_new
  take_new-SystemOk zero r v = v
  take_new-SystemOk (suc fuel) r v =
      if-either (λ (t : Outcome × Router). SystemOk t.1) r.inbox_open
        (attend-SystemOk (take_new malloc msgsnd fuel) _ r (take_new-SystemOk fuel)
          (receive_as-AllGot IsSane mtype_router r.inbox v.coming) v)
        v

  try_pending-SystemOk :
      (before ms : List Msg) (r : Router)
      → All IsSane before
      → All IsSane ms
      → SystemOk r
      → SystemOk (try_pending malloc msgsnd before ms r).1
  unfolding try_pending
  try_pending-SystemOk before [] r p q v = take_new-SystemOk (suc (length r.inbox)) r v
  try_pending-SystemOk before (m ∷ ms) r p q v =
      let w = message-SystemOk malloc msgsnd m r q.0 v in
      next-SystemOk (switch (message malloc msgsnd m r).0) _ _ _
        (record {
          memory = w.memory;
          waiting = All-append IsSane before ms p q.1;
          coming = w.coming;
        })
        (try_pending-SystemOk (before ++ m ∷ []) ms _
          (All-append IsSane before (m ∷ []) p (q.0, tt)) q.1 w)
        w

  do_listen-SystemOk : (r : Router) → SystemOk r → SystemOk (do_listen malloc msgsnd r).1
  unfolding do_listen
  do_listen-SystemOk r v =
      try_pending-SystemOk [] r.pending _ tt v.waiting
        (record { memory = v.memory; waiting = v.waiting; coming = v.coming })

  -- The clients ask for at least a byte.
  abbrev pub SaneStep : {r r' : Router} → Step malloc msgsnd r r' → Type 0
  SaneStep (arrive m r) = IsSane m
  SaneStep (serve r go) = Unit {0}
  SaneStep (take pid m rest r e) = Unit {0}
  SaneStep (close r) = Unit {0}

  -- The states that a router with `n` bytes of shared memory reaches among such clients.
  pub data SaneReach (n : ℕ) : Router → Type 0 where
    begin : SaneReach n (start n)
    later :
        {r r' : Router}
        → SaneReach n r
        → (s : Step malloc msgsnd r r') → SaneStep s
        → SaneReach n r'

  Step-SystemOk :
      {r r' : Router} (s : Step malloc msgsnd r r') → SaneStep s → SystemOk r → SystemOk r'
  Step-SystemOk (serve r go) p v = do_listen-SystemOk r v
  Step-SystemOk (arrive m r) p v = record {
    memory = v.memory;
    waiting = v.waiting;
    coming = All-append IsSane r.inbox (m ∷ []) v.coming (p, tt);
  }
  Step-SystemOk (take pid m rest r e) p v = record {
    memory = v.memory;
    waiting = v.waiting;
    coming = v.coming;
  }
  Step-SystemOk (close r) p v = record { memory = v.memory; waiting = v.waiting; coming = v.coming }

  start-SystemOk : (n : ℕ) → 0 < n → SystemOk (start n)
  unfolding start
  start-SystemOk n p = record { memory = init_shm-MemOk n p; waiting = tt; coming = tt }

  pub SaneReach-SystemOk : {n : ℕ} {r : Router} → 0 < n → SaneReach n r → SystemOk r
  SaneReach-SystemOk {n} p begin = start-SystemOk n p
  SaneReach-SystemOk p (later h s q) = Step-SystemOk s q (SaneReach-SystemOk p h)

  -- A router with at least a byte of shared memory, among clients that ask for at least a byte: in
  -- every state each byte of the shared memory is in exactly one node, used or free, and the free
  -- list is sorted, without empty nodes, and merged.
  pub SaneReach-RouterOk : {n : ℕ} {r : Router} → 0 < n → SaneReach n r → RouterOk r
  SaneReach-RouterOk p h = (SaneReach-SystemOk p h).memory

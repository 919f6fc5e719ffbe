-- ===== src/Router/Fuel.antt =====
-- The loop of `do_listen` over new messages ends by itself: src/router/src/listen.c.
use udaq.Base.{
  ℕ, zero, suc, ◌+◌, ◌<◌, ◌≡◌, refl, ap, ◌∙◌, Bool, true, Option, none, some, List, [], ◌∷◌, ℤ, pos,
  negsuc, ◌⊎◌, inl, inr, Bool-cases, Option-cases, arith, length, ◌&&◌,
}
use udaq.Router.Shm.{Shm}
use udaq.Router.Protocol.{
  Msg, Cmd, connect, disconnect, refuse, buffer, release, getbuf, suspend, status, terminate, other,
  mtype_router, is_writer,
}
use udaq.Router.Outbox.{Reply}
use udaq.Router.State.{Router, flag_or_head, find_proc}
use udaq.Router.Holds.{check_max_buf}
use udaq.Router.Buffers.{get_buf}
use udaq.Router.Messages.{answer, do_getbuf, do_release, dispatch, message}
use udaq.Router.Listen.{
  Outcome, again, ended, Switch, done, wait, stop, switch, next, receive_as, put_off, attend,
  take_new,
}
use udaq.Router.Frame.{get_buf-Rest}

-- Taking a message leaves one less.
receive_as-length :
    (mtype : ℕ) (ms : List Msg) (m : Msg) (rest : List Msg)
    → receive_as mtype ms ≡ some (m, rest)
    → length ms ≡ length rest + 1
unfolding receive_as
receive_as-length mtype [] m rest h = ground (arith, h)
receive_as-length mtype (n ∷ ms) m rest h = elim (Option-cases (receive_as mtype ms)) [
  | inl e ↦ let h' = rw e at h in ground (arith, h')
  | inr ((k, more), e) ↦
      let h' = rw e at h in ground (arith, h', receive_as-length mtype ms k more e)
]

Switch-cases : (s : Switch) → (s ≡ done) ⊎ (s ≡ wait) ⊎ (s ≡ stop)
Switch-cases done = inl refl
Switch-cases wait = inr (inl refl)
Switch-cases stop = inr (inr refl)

module _ (malloc : ℕ → Bool) (msgsnd : ℕ → Reply) where
  answer-inbox :
      (pid : ℕ) (t : ℤ × Option Shm × Router)
      → switch (answer malloc msgsnd pid t).0 ≡ wait
      → (answer malloc msgsnd pid t).1 ≡ t.2
  unfolding answer
  answer-inbox pid (negsuc zero, o, r) h = ground (arith, h)
  answer-inbox pid (negsuc (suc n), o, r) h = ground (arith, h)
  answer-inbox pid (pos zero, some n, r) h = ground (arith, h)
  answer-inbox pid (pos zero, none, r) h = ground (arith, h)
  answer-inbox pid (pos (suc zero), o, r) h = ground (arith, h)
  answer-inbox pid (pos (suc (suc zero)), o, r) h = refl
  answer-inbox pid (pos (suc (suc (suc n))), o, r) h = ground (arith, h)

  do_release-inbox :
      (m : Msg) (r : Router)
      → switch (do_release malloc msgsnd m r).0 ≡ wait
      → (do_release malloc msgsnd m r).1 ≡ r
  unfolding do_release
  do_release-inbox m r h =
      elim (Bool-cases (is_writer (flag_or_head (find_proc m.pid r.pl)) && check_max_buf r.pl)) [
        | inl e ↦ rw (e, do_release) refl
        | inr e ↦ let h' = rw (e, do_release) at h in ground (arith, h')
      ]

  -- A message that has to wait takes no message from the queue.
  message-inbox :
      (c : Cmd) (m : Msg) (r : Router)
      → switch (dispatch malloc msgsnd c m r).0 ≡ wait
      → (dispatch malloc msgsnd c m r).1.inbox ≡ r.inbox
  unfolding dispatch do_getbuf
  message-inbox release m r h = ap (λ u. u.inbox) (do_release-inbox m r h)
  message-inbox getbuf m r h =
      ap (λ u. u.inbox) (answer-inbox m.pid (get_buf malloc m.pid m.arg0 r) h)
      ∙ (get_buf-Rest malloc m.pid m.arg0 r).2
  message-inbox connect m r h = ground (arith, h)
  message-inbox disconnect m r h = ground (arith, h)
  message-inbox status m r h = ground (arith, h)
  message-inbox terminate m r h = ground (arith, h)
  message-inbox refuse m r h = ground (arith, h)
  message-inbox buffer m r h = ground (arith, h)
  message-inbox suspend m r h = ground (arith, h)
  message-inbox (other n) m r h = ground (arith, h)

  put_off-inbox : (m : Msg) (r : Router) → (put_off malloc msgsnd m r).inbox ≡ r.inbox
  unfolding put_off
  put_off-inbox m r = ground arith

  -- Two loops that agree on what is left agree on a round.
  round-agrees :
      (f g : Router → Outcome × Router) (m : Msg) (q : Router)
      → ((r : Router) → r.inbox ≡ q.inbox → f r ≡ g r)
      → (let (res, r') = message malloc msgsnd m q in
          next (switch res) (again, r') (f (put_off malloc msgsnd m r')) (ended, r'))
        ≡ (let (res, r') = message malloc msgsnd m q in
            next (switch res) (again, r') (g (put_off malloc msgsnd m r')) (ended, r'))
  unfolding next message
  round-agrees f g m q h = elim (Switch-cases (switch (message malloc msgsnd m q).0)) [
    | inl e ↦ rw e refl
    | inr (inr e) ↦ rw e refl
    | inr (inl e) ↦
        rw e (h _ (put_off-inbox m (message malloc msgsnd m q).1 ∙ message-inbox m.cmd m q e))
  ]

  -- More fuel than there are messages makes no difference to the loop over new messages: it ends when
  -- a message is done, the router ends, or no message is left.
  pub take_new-fuel :
      (n k : ℕ) (r : Router)
      → length r.inbox < n
      → length r.inbox < k
      → take_new malloc msgsnd n r ≡ take_new malloc msgsnd k r
  unfolding take_new attend put_off next message
  take_new-fuel zero k r a b = ground (arith, a)
  take_new-fuel (suc n) zero r a b = ground (arith, b)
  take_new-fuel (suc n) (suc k) r a b = elim (Bool-cases r.inbox_open) [
    | inr e ↦ rw (e, take_new) refl
    | inl e ↦
        rw (e, take_new)
          (elim (Option-cases (receive_as mtype_router r.inbox)) [
            | inl g ↦ rw (g, attend) refl
            | inr ((m, rest), g) ↦
                rw (g, attend)
                  (round-agrees (take_new malloc msgsnd n) (take_new malloc msgsnd k) m
                    (record r { inbox = rest; inbox_open = true })
                    (λ q h.
                      take_new-fuel n k q
                        (omega
                          (arith, ap length h, a, receive_as-length mtype_router r.inbox m rest g))
                        (omega (
                          arith,
                          ap length h,
                          b,
                          receive_as-length mtype_router r.inbox m rest g,
                        ))))
          ])
  ]

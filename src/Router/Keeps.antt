-- ===== src/Router/Keeps.antt =====
-- A property of the router's state that the operations on buffers keep, and that does not look at the
-- queues, is kept by every message and holds in every state that the router reaches.
use udaq.Base.{
  ℕ, zero, suc, ◌≡◌, Bool, true, false, not, ◌&&◌, ◌||◌, Option, none, some, List, [], ◌∷◌, ◌++◌,
  ltb, ◌==◌, ℤ, pos, negsuc, length, inl, inr, Bool-cases, Option-cases, List-cases, if-either,
}
use udaq.Router.Shm.{Shm}
use udaq.Router.Protocol.{
  Msg, Cmd, connect, disconnect, refuse, buffer, release, getbuf, terminate, mtype_router,
  router_version, router_version_min, o_all, o_wronly, o_sample, is_writer,
}
use udaq.Router.Outbox.{Outbox, Reply}
use udaq.Router.State.{Router, start, find_proc, flag_or_head}
use udaq.Router.Holds.{no_size, check_max_buf}
use udaq.Router.Buffers.{
  holds_of, drop_proc, get_buf, new_pl, send_msg, release_buf, release_all, pl_release_buf_all,
  remove_pl,
}
use udaq.Router.References.Remove.{pl_release_buf_all-held}
use udaq.Router.Messages.{
  is_buffer, is_known, split_for, admit, do_connect, release_buffers, release_queued, purge_que,
  purge_kernel, purge_inbox, do_disconnect, do_release, answer, do_getbuf, dispatch, message,
}
use udaq.Router.Listen.{
  Outcome, Switch, done, wait, stop, switch, next, receive_as, put_off, attend, take_new,
  try_pending, do_listen, Step, serve, arrive, take, close, Reach, begin, later,
}

-- What the operations on buffers have to keep. `on_queues`: nothing is said of the queues, the counter of
-- `malloc` and the flag.
pub record Kept (malloc : ℕ → Bool) (msgsnd : ℕ → Reply) (P : Router → Type 0) : Type 0 where
  pub on_release :
      (pid buf size : ℕ) (r : Router) → P r → P (release_buf malloc msgsnd pid buf size r).1
  pub on_grant : (pid size : ℕ) (r : Router) → P r → P (get_buf malloc pid size r).2
  pub on_join :
      (pid flag : ℕ) (r : Router)
      → is_known (find_proc pid r.pl) ≡ false
      → P r
      → P (new_pl malloc pid flag r).1
  pub on_drop :
      (pid : ℕ) (r : Router)
      → holds_of (find_proc pid r.pl) ≡ []
      → P r
      → P (record r { pl = drop_proc pid r.pl })
  pub on_queues :
      (o : Outbox) (i : List Msg) (open? : Bool) (w : List Msg) (n : ℕ) (e : Bool) (r : Router)
      → P r
      → P (record r {
        outbox = o;
        inbox = i;
        inbox_open = open?;
        pending = w;
        allocs = n;
        end_flag = e;
      })

module _ {malloc : ℕ → Bool} {msgsnd : ℕ → Reply} {P : Router → Type 0}
    (kept : Kept malloc msgsnd P) where
  open kept use {on_release, on_grant, on_join, on_drop, on_queues}

  release_all-keeps : (fuel pid : ℕ) (r : Router) → P r → P (release_all malloc msgsnd fuel pid r)
  unfolding release_all
  release_all-keeps zero pid r v = v
  release_all-keeps (suc fuel) pid r v = elim (List-cases (holds_of (find_proc pid r.pl))) [
    | inl e ↦ rw (e, release_all) v
    | inr (b, bs, e) ↦
        rw (e, release_all) (release_all-keeps fuel pid _ (on_release pid b no_size r v))
  ]

  pl_release_buf_all-keeps :
      (pid : ℕ) (r : Router) → P r → P (pl_release_buf_all malloc msgsnd pid r).1
  unfolding pl_release_buf_all
  pl_release_buf_all-keeps pid r v = elim (Option-cases (find_proc pid r.pl)) [
    | inl e ↦ rw (e, pl_release_buf_all) v
    | inr (p, e) ↦ rw (e, pl_release_buf_all) (release_all-keeps (length p.bl) pid r v)
  ]

  remove_pl-keeps : (pid : ℕ) (r : Router) → P r → P (remove_pl malloc msgsnd pid r).1
  unfolding remove_pl
  remove_pl-keeps pid r v =
      let r' : Router = (pl_release_buf_all malloc msgsnd pid r).1 in
      let v' : P r' = pl_release_buf_all-keeps pid r v in
      elim (Option-cases (find_proc pid r'.pl)) [
        | inl e ↦ rw (e, remove_pl) v'
        | inr (p, e) ↦
            rw (e, remove_pl) (on_drop pid r' (pl_release_buf_all-held malloc msgsnd pid r) v')
      ]

  send_msg-keeps :
      (mtype : ℕ) (cmd : Cmd) (a b c : ℕ) (r : Router)
      → P r
      → P (send_msg malloc msgsnd mtype cmd a b c r)
  unfolding send_msg
  send_msg-keeps mtype cmd a b c r v = on_queues _ _ _ _ _ _ r v

  admit-keeps : (pid : ℕ) (t : Bool × Router) → P t.1 → P (admit malloc msgsnd pid t)
  unfolding admit
  admit-keeps pid (true, r) v = send_msg-keeps pid connect 0 0 0 r v
  admit-keeps pid (false, r) v = send_msg-keeps pid refuse 0 0 0 r v

  do_connect-keeps : (m : Msg) (r : Router) → P r → P (do_connect malloc msgsnd m r)
  unfolding do_connect
  do_connect-keeps m r v =
      let refused = send_msg-keeps m.pid refuse 0 0 0 r v in
      elim (Bool-cases (is_known (find_proc m.pid r.pl))) [
        | inl e ↦ rw (e, do_connect) v
        | inr e ↦
            rw (e, do_connect)
              (if-either P (not (m.arg0 == o_all || m.arg0 == o_wronly || m.arg0 == o_sample))
                refused
                (if-either P (ltb m.arg1 router_version_min) refused (
                  if-either P (ltb router_version m.arg1) refused
                    (admit-keeps m.pid _ (on_join m.pid m.arg0 r e v)))))
      ]

  release_queued-keeps :
      (pid : ℕ) (ms : List Msg) (r : Router) → P r → P (release_queued malloc msgsnd pid ms r)
  unfolding release_queued
  release_queued-keeps pid [] r v = v
  release_queued-keeps pid (m ∷ ms) r v =
      release_queued-keeps pid ms _ (on_release pid m.arg0 no_size r v)

  release_buffers-keeps :
      (pid : ℕ) (ms : List Msg) (r : Router) → P r → P (release_buffers malloc msgsnd pid ms r)
  unfolding release_buffers
  release_buffers-keeps pid [] r v = v
  release_buffers-keeps pid (m ∷ ms) r v =
      release_buffers-keeps pid ms _
        (if-either P (is_buffer m.cmd) (on_release pid m.arg0 no_size r v) v)

  do_disconnect-keeps : (pid : ℕ) (r : Router) → P r → P (do_disconnect malloc msgsnd pid r)
  unfolding do_disconnect purge_que purge_kernel purge_inbox
  do_disconnect-keeps pid r v =
      let v₁ =
        on_queues _ _ _ _ _ _ _ (release_queued-keeps pid (split_for pid r.outbox.que).0 r v) in
      let v₂ = on_queues _ _ _ _ _ _ _ (
        release_buffers-keeps pid (split_for pid (purge_que malloc msgsnd pid r).outbox.kernel).0
          (purge_que malloc msgsnd pid r) v₁) in
      let r₂ = purge_kernel malloc msgsnd pid (purge_que malloc msgsnd pid r) in
      let v₃ =
        on_queues _ _ _ _ _ _ _ (release_buffers-keeps pid (split_for pid r₂.inbox).0 r₂ v₂) in
      remove_pl-keeps pid (purge_inbox malloc msgsnd pid r₂) v₃

  do_release-keeps : (m : Msg) (r : Router) → P r → P (do_release malloc msgsnd m r).1
  unfolding do_release
  do_release-keeps m r v =
      if-either (λ (t : ℤ × Router). P t.1)
        (is_writer (flag_or_head (find_proc m.pid r.pl)) && check_max_buf r.pl) v
        (on_release m.pid m.arg0 m.arg1 r v)

  answer-keeps : (pid : ℕ) (t : ℤ × Option Shm × Router) → P t.2 → P (answer malloc msgsnd pid t).1
  unfolding answer
  answer-keeps pid (negsuc zero, s, r) v = send_msg-keeps pid refuse 0 0 0 r v
  answer-keeps pid (pos zero, some n, r) v = send_msg-keeps pid buffer n.buf n.size 0 r v
  answer-keeps pid (pos (suc (suc zero)), s, r) v = v
  answer-keeps pid (pos (suc zero), s, r) v = v
  answer-keeps pid (_, s, r) v = v

  dispatch-keeps : (cmd : Cmd) (m : Msg) (r : Router) → P r → P (dispatch malloc msgsnd cmd m r).1
  unfolding dispatch do_getbuf
  dispatch-keeps connect m r v = do_connect-keeps m r v
  dispatch-keeps disconnect m r v = do_disconnect-keeps m.pid r v
  dispatch-keeps release m r v = do_release-keeps m r v
  dispatch-keeps getbuf m r v =
      answer-keeps m.pid (get_buf malloc m.pid m.arg0 r) (on_grant m.pid m.arg0 r v)
  dispatch-keeps terminate m r v = on_queues _ _ _ _ _ _ r v
  dispatch-keeps _ m r v = v

  pub message-keeps : (m : Msg) (r : Router) → P r → P (message malloc msgsnd m r).1
  unfolding message
  message-keeps m r v = dispatch-keeps m.cmd m r v

  next-keeps : (s : Switch) (a b c : Outcome × Router) → P a.1 → P b.1 → P c.1 → P (next s a b c).1
  unfolding next
  next-keeps done a b c p q t = p
  next-keeps wait a b c p q t = q
  next-keeps stop a b c p q t = t

  put_off-keeps : (m : Msg) (r : Router) → P r → P (put_off malloc msgsnd m r)
  unfolding put_off
  put_off-keeps m r v =
      if-either P (malloc r.allocs) (on_queues _ _ _ _ _ _ r v) (on_queues _ _ _ _ _ _ r v)

  attend-keeps :
      (more : Router → Outcome × Router) (o : Option (Msg × List Msg)) (r : Router)
      → ((r' : Router) → P r' → P (more r').1)
      → P r
      → P (attend malloc msgsnd more o r).1
  unfolding attend
  attend-keeps more none r keep v = v
  attend-keeps more (some (m, rest)) r keep v =
      let r₁ : Router = record r { inbox = rest } in
      let w = message-keeps m r₁ (on_queues _ _ _ _ _ _ r v) in
      next-keeps (switch (message malloc msgsnd m r₁).0) _ _ _ w
        (keep _ (put_off-keeps m (message malloc msgsnd m r₁).1 w)) w

  take_new-keeps : (fuel : ℕ) (r : Router) → P r → P (take_new malloc msgsnd fuel r).1
  unfolding take_new
  take_new-keeps zero r v = v
  take_new-keeps (suc fuel) r v =
      if-either (λ (t : Outcome × Router). P t.1) r.inbox_open
        (attend-keeps (take_new malloc msgsnd fuel) (receive_as mtype_router r.inbox) r
          (take_new-keeps fuel) v)
        v

  try_pending-keeps :
      (before ms : List Msg) (r : Router) → P r → P (try_pending malloc msgsnd before ms r).1
  unfolding try_pending
  try_pending-keeps before [] r v = take_new-keeps (suc (length r.inbox)) r v
  try_pending-keeps before (m ∷ ms) r v =
      let w = message-keeps m r v in
      next-keeps (switch (message malloc msgsnd m r).0) _ _ _ (on_queues _ _ _ _ _ _ _ w)
        (try_pending-keeps (before ++ m ∷ []) ms _ w) w

  pub do_listen-keeps : (r : Router) → P r → P (do_listen malloc msgsnd r).1
  unfolding do_listen
  do_listen-keeps r v = try_pending-keeps [] r.pending _ (on_queues _ _ _ _ _ _ r v)

  pub Step-keeps : {r r' : Router} → Step malloc msgsnd r r' → P r → P r'
  Step-keeps (serve r go) v = do_listen-keeps r v
  Step-keeps (arrive m r) v = on_queues _ _ _ _ _ _ r v
  Step-keeps (take pid m rest r e) v = on_queues _ _ _ _ _ _ r v
  Step-keeps (close r) v = on_queues _ _ _ _ _ _ r v

  pub Reach-keeps : {n : ℕ} {r : Router} → P (start n) → Reach malloc msgsnd n r → P r
  Reach-keeps v begin = v
  Reach-keeps v (later h s) = Step-keeps s (Reach-keeps v h)

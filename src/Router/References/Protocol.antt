-- ===== src/Router/References/Protocol.antt =====
-- A property of the router's state that a holder's release and the other operations on buffers keep is
-- kept by every message of a sender that keeps to the protocol.
use udaq.Base.{
  ℕ, zero, suc, ◌<◌, ◌≡◌, ap, sym, ◌∙◌, Bool, true, false, ◌&&◌, Option, some, List, [], ◌∷◌, ◌++◌,
  arith, ◌==◌, if◌then◌else◌, ℤ, pos, negsuc, inl, inr, Bool-cases, Option-cases, List-cases,
  length, not, ◌||◌, ltb, if-either,
}
use mathlib.Core.Path.{subst}
use udaq.Router.Shm.{Shm}
use udaq.Router.Protocol.{
  Msg, Cmd, connect, disconnect, refuse, buffer, release, getbuf, terminate, is_writer, o_all,
  o_wronly, o_sample, router_version, router_version_min,
}
use udaq.Router.Outbox.{Outbox, Reply}
use udaq.Router.State.{Router, find_proc, flag_or_head}
use udaq.Router.Holds.{no_size, check_max_buf}
use udaq.Router.Buffers.{
  holds_of, drop_proc, get_buf, new_pl, send_msg, release_buf, release_all, pl_release_buf_all,
  remove_pl,
}
use udaq.Router.Messages.{
  is_known, is_buffer, split_for, admit, do_connect, release_buffers, release_queued, purge_que,
  purge_kernel, purge_inbox, do_disconnect, do_release, answer, do_getbuf, dispatch, message,
}
use udaq.Router.References.{count, held_by}
use udaq.Router.References.Remove.{pl_release_buf_all-held}
use udaq.Router.References.Purge.{
  positions, buffers, HoldsAll, outstanding, Keeps, forced-HoldsAll, release_queued-queues,
  release_buffers-queues,
}

-- What the operations on buffers have to keep; a release only where the process holds the buffer.
pub record HeldKept (malloc : ℕ → Bool) (msgsnd : ℕ → Reply) (P : Router → Type 0) : Type 0 where
  pub on_release :
      (pid buf size : ℕ) (r : Router)
      → 0 < held_by pid buf r.pl
      → P r
      → P (release_buf malloc msgsnd pid buf size r).1
  pub on_grant : (pid size : ℕ) (r : Router) → P r → P (get_buf malloc pid size r).2
  pub on_join : (pid flag : ℕ) (r : Router) → P r → P (new_pl malloc pid flag r).1
  pub on_drop :
      (pid : ℕ) (r : Router)
      → holds_of (find_proc pid r.pl) ≡ []
      → P r
      → P (record r { pl = drop_proc pid r.pl })
  pub on_queues :
      (o : Outbox) (i : List Msg) (n : ℕ) (e : Bool) (r : Router)
      → P r
      → P (record r { outbox = o; inbox = i; allocs = n; end_flag = e })

module _ {malloc : ℕ → Bool} {msgsnd : ℕ → Reply} {P : Router → Type 0}
    (kept : HeldKept malloc msgsnd P) where
  open kept use {on_release, on_grant, on_join, on_drop, on_queues}

  release_all-keeps : (fuel pid : ℕ) (r : Router) → P r → P (release_all malloc msgsnd fuel pid r)
  unfolding release_all
  release_all-keeps zero pid r v = v
  release_all-keeps (suc fuel) pid r v = elim (List-cases (holds_of (find_proc pid r.pl))) [
    | inl e ↦ rw (e, release_all) v
    | inr (b, bs, e) ↦
        rw (e, release_all)
          (release_all-keeps fuel pid _
            (on_release pid b no_size r (ground (arith, ap (count b) e)) v))
  ]

  pl_release_buf_all-keeps :
      (pid : ℕ) (r : Router) → P r → P (pl_release_buf_all malloc msgsnd pid r).1
  unfolding pl_release_buf_all
  pl_release_buf_all-keeps pid r v = elim (Option-cases (find_proc pid r.pl)) [
    | inl e ↦ rw (e, pl_release_buf_all) v
    | inr (p, e) ↦ rw (e, pl_release_buf_all) (release_all-keeps (length p.bl) pid r v)
  ]

  remove_pl-keeps : (pid : ℕ) (r : Router) → P r → P (remove_pl malloc msgsnd pid r).1
  unfolding remove_pl
  remove_pl-keeps pid r v =
      let r' : Router = (pl_release_buf_all malloc msgsnd pid r).1 in
      let v' : P r' = pl_release_buf_all-keeps pid r v in
      elim (Option-cases (find_proc pid r'.pl)) [
        | inl e ↦ rw (e, remove_pl) v'
        | inr (p, e) ↦
            rw (e, remove_pl) (on_drop pid r' (pl_release_buf_all-held malloc msgsnd pid r) v')
      ]

  send_msg-keeps :
      (mtype : ℕ) (cmd : Cmd) (a b c : ℕ) (r : Router)
      → P r
      → P (send_msg malloc msgsnd mtype cmd a b c r)
  unfolding send_msg
  send_msg-keeps mtype cmd a b c r v = on_queues _ _ _ _ r v

  admit-keeps : (pid : ℕ) (t : Bool × Router) → P t.1 → P (admit malloc msgsnd pid t)
  unfolding admit
  admit-keeps pid (true, r) v = send_msg-keeps pid connect 0 0 0 r v
  admit-keeps pid (false, r) v = send_msg-keeps pid refuse 0 0 0 r v

  do_connect-keeps : (m : Msg) (r : Router) → P r → P (do_connect malloc msgsnd m r)
  unfolding do_connect
  do_connect-keeps m r v =
      let refused = send_msg-keeps m.pid refuse 0 0 0 r v in
      elim (Bool-cases (is_known (find_proc m.pid r.pl))) [
        | inl e ↦ rw (e, do_connect) v
        | inr e ↦
            rw (e, do_connect)
              (if-either P (not (m.arg0 == o_all || m.arg0 == o_wronly || m.arg0 == o_sample))
                refused
                (if-either P (ltb m.arg1 router_version_min) refused (
                  if-either P (ltb router_version m.arg1) refused
                    (admit-keeps m.pid _ (on_join m.pid m.arg0 r v)))))
      ]

  answer-keeps : (pid : ℕ) (t : ℤ × Option Shm × Router) → P t.2 → P (answer malloc msgsnd pid t).1
  unfolding answer
  answer-keeps pid (negsuc zero, s, r) v = send_msg-keeps pid refuse 0 0 0 r v
  answer-keeps pid (pos zero, some n, r) v = send_msg-keeps pid buffer n.buf n.size 0 r v
  answer-keeps pid (pos (suc (suc zero)), s, r) v = v
  answer-keeps pid (pos (suc zero), s, r) v = v
  answer-keeps pid (_, s, r) v = v

  forced-keeps :
      (pid buf : ℕ) (bs : List ℕ) (r : Router)
      → HoldsAll pid (buf ∷ bs) r.pl
      → P r
      → P (release_buf malloc msgsnd pid buf no_size r).1
  forced-keeps pid buf bs r h v = on_release pid buf no_size r (ground (arith, h buf)) v

  release_queued-keeps :
      (pid : ℕ) (ms : List Msg) (bs : List ℕ) (r : Router)
      → HoldsAll pid (positions ms ++ bs) r.pl
      → P r
      → P (release_queued malloc msgsnd pid ms r)
        × HoldsAll pid bs (release_queued malloc msgsnd pid ms r).pl
  unfolding release_queued
  release_queued-keeps pid [] bs r h v = (v, h)
  release_queued-keeps pid (m ∷ ms) bs r h v =
      release_queued-keeps pid ms bs _
        (forced-HoldsAll malloc msgsnd pid m.arg0 (positions ms ++ bs) r h)
        (forced-keeps pid m.arg0 (positions ms ++ bs) r h v)

  release_buffers-keeps :
      (pid : ℕ) (ms : List Msg) (bs : List ℕ) (r : Router)
      → HoldsAll pid (buffers ms ++ bs) r.pl
      → P r
      → P (release_buffers malloc msgsnd pid ms r)
        × HoldsAll pid bs (release_buffers malloc msgsnd pid ms r).pl
  unfolding release_buffers
  release_buffers-keeps pid [] bs r h v = (v, h)
  release_buffers-keeps pid (m ∷ ms) bs r h v =
      let Held =
        λ (c : Bool). HoldsAll pid ((if c then m.arg0 ∷ buffers ms else buffers ms) ++ bs) r.pl in
      elim (Bool-cases (is_buffer m.cmd)) [
        | inl e ↦
            let h' = subst Held e h in
            rw (e, release_buffers)
              (release_buffers-keeps pid ms bs _
                (forced-HoldsAll malloc msgsnd pid m.arg0 (buffers ms ++ bs) r h')
                (forced-keeps pid m.arg0 (buffers ms ++ bs) r h' v))
        | inr e ↦ rw (e, release_buffers) (release_buffers-keeps pid ms bs r (subst Held e h) v)
      ]

  purge_que-keeps :
      (pid : ℕ) (bs : List ℕ) (r : Router)
      → HoldsAll pid (positions (split_for pid r.outbox.que).0 ++ bs) r.pl
      → P r
      → P (purge_que malloc msgsnd pid r)
        × HoldsAll pid bs (purge_que malloc msgsnd pid r).pl
        × ((purge_que malloc msgsnd pid r).outbox.kernel ≡ r.outbox.kernel)
        × ((purge_que malloc msgsnd pid r).inbox ≡ r.inbox)
  unfolding purge_que
  purge_que-keeps pid bs r h v =
      let mine = (split_for pid r.outbox.que).0 in
      let (w, k) = release_queued-keeps pid mine bs r h v in
      let (o, i) = release_queued-queues malloc msgsnd pid mine r in
      (on_queues _ _ _ _ _ w, k, ap (λ (x : Outbox). x.kernel) o, i)

  purge_kernel-keeps :
      (pid : ℕ) (bs : List ℕ) (r : Router)
      → HoldsAll pid (buffers (split_for pid r.outbox.kernel).0 ++ bs) r.pl
      → P r
      → P (purge_kernel malloc msgsnd pid r)
        × HoldsAll pid bs (purge_kernel malloc msgsnd pid r).pl
        × ((purge_kernel malloc msgsnd pid r).inbox ≡ r.inbox)
  unfolding purge_kernel
  purge_kernel-keeps pid bs r h v =
      let mine = (split_for pid r.outbox.kernel).0 in
      let (w, k) = release_buffers-keeps pid mine bs r h v in
      (on_queues _ _ _ _ _ w, k, (release_buffers-queues malloc msgsnd pid mine r).1)

  purge_inbox-keeps :
      (pid : ℕ) (bs : List ℕ) (r : Router)
      → HoldsAll pid (buffers (split_for pid r.inbox).0 ++ bs) r.pl
      → P r
      → P (purge_inbox malloc msgsnd pid r)
  unfolding purge_inbox
  purge_inbox-keeps pid bs r h v =
      on_queues _ _ _ _ _ (release_buffers-keeps pid (split_for pid r.inbox).0 bs r h v).0

  -- A process disconnects: the buffers that are on the way to it, and those that it has, are released,
  -- and every buffer that another process holds stays in use. It holds the buffers of all messages that
  -- wait for it.
  pub do_disconnect-keeps :
      (pid : ℕ) (r : Router)
      → HoldsAll pid (outstanding pid r) r.pl
      → P r
      → P (do_disconnect malloc msgsnd pid r)
  unfolding do_disconnect
  do_disconnect-keeps pid r h v =
      let taken = λ (ms : List Msg). buffers (split_for pid ms).0 in
      let (v₁, h₁, k₁, i₁) =
        purge_que-keeps pid (taken r.outbox.kernel ++ (taken r.inbox ++ [])) r h v in
      let r₁ = purge_que malloc msgsnd pid r in
      let (v₂, h₂, i₂) =
        purge_kernel-keeps pid (taken r.inbox ++ []) r₁
          (subst (λ ms. HoldsAll pid (taken ms ++ (taken r.inbox ++ [])) r₁.pl) (sym k₁) h₁) v₁ in
      let r₂ = purge_kernel malloc msgsnd pid r₁ in
      remove_pl-keeps pid _ (
        purge_inbox-keeps pid [] r₂
          (subst (λ ms. HoldsAll pid (taken ms ++ []) r₂.pl) (sym (i₂ ∙ i₁)) h₂) v₂)

  dispatch-keeps :
      (cmd : Cmd) (m : Msg) (r : Router)
      → Keeps cmd m r
      → P r
      → P (dispatch malloc msgsnd cmd m r).1
  unfolding dispatch do_release do_getbuf
  dispatch-keeps connect m r k v = do_connect-keeps m r v
  dispatch-keeps disconnect m r k v = do_disconnect-keeps m.pid r k v
  dispatch-keeps release m r k v =
      if-either (λ (t : ℤ × Router). P t.1)
        (is_writer (flag_or_head (find_proc m.pid r.pl)) && check_max_buf r.pl) v
        (on_release m.pid m.arg0 m.arg1 r k v)
  dispatch-keeps getbuf m r k v =
      answer-keeps m.pid (get_buf malloc m.pid m.arg0 r) (on_grant m.pid m.arg0 r v)
  dispatch-keeps terminate m r k v = on_queues _ _ _ _ r v
  dispatch-keeps _ m r k v = v

  pub message-keeps :
      (m : Msg) (r : Router) → Keeps m.cmd m r → P r → P (message malloc msgsnd m r).1
  unfolding message
  message-keeps m r k v = dispatch-keeps m.cmd m r k v

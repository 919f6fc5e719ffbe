-- ===== src/Router/Frame.antt =====
-- What the operations on buffers leave alone: the size of the memory, the messages that wait, those
-- that come in, and the end of the loop.
use udaq.Base.{
  ℕ, zero, suc, ◌+◌, ◌≡◌, Bool, Option, none, some, List, [], ◌∷◌, arith, ℤ, pos, negsuc, inc,
}
use udaq.Router.Shm.{Shm, round_up, Walk, walk, no_fit}
use udaq.Router.Protocol.{Cmd}
use udaq.Router.Outbox.{Reply}
use udaq.Router.State.{Proc, Router}
use udaq.Router.Holds.{drop_ref, count_in}
use udaq.Router.Buffers.{
  clip, place, get_shm, hand_out, pl_hold, get_buf, new_pl, send_msg, send_one, offer, send_each,
  count_sent, finish, send_buf, after_send, release_found, release_buf, release_all,
  pl_release_buf_all, remove_pl,
}

abbrev pub Rest : Router → Router → Type 0
Rest r r' =
    (r'.shmsize ≡ r.shmsize)
    × (r'.pending ≡ r.pending)
    × (r'.inbox ≡ r.inbox)
    × (r'.end_flag ≡ r.end_flag)

drop_ref-Rest :
    (before : List Shm) (s : Shm) (after : List Shm) (r : Router)
    → Rest r (drop_ref before s after r).1
unfolding drop_ref
drop_ref-Rest before s after r = ground arith

after_send-Rest :
    (before after : List Shm) (r : Router) (t : ℤ × Shm × Router)
    → Rest r t.2
    → Rest r (after_send before after t).1
unfolding after_send
after_send-Rest before after r (pos n, s, r') e = ground (arith, drop_ref-Rest before s after r')
after_send-Rest before after r (negsuc n, s, r') e = e

module _ (malloc : ℕ → Bool) where
  place-Rest : (w : Walk) (r : Router) → Rest r (place malloc w r).1
  unfolding place
  place-Rest no_fit r = ground arith
  place-Rest w r = ground arith

  hand_out-Rest :
      (pid : ℕ) (r : Router) (t : Option Shm × Router)
      → Rest r t.1
      → Rest r (hand_out malloc pid t).2
  unfolding hand_out pl_hold
  hand_out-Rest pid r (none, r') e = e
  hand_out-Rest pid r (some n, r') e = ground arith

  get_shm-Rest : (size : ℕ) (r : Router) → Rest r (get_shm malloc size r).1
  unfolding get_shm
  get_shm-Rest size r = place-Rest (walk (round_up size) r.free) r

  pub get_buf-Rest : (pid size : ℕ) (r : Router) → Rest r (get_buf malloc pid size r).2
  unfolding get_buf
  get_buf-Rest pid size r = ground (
    arith,
    hand_out-Rest pid r (get_shm malloc (round_up size) r) (get_shm-Rest (round_up size) r),
  )

  pub new_pl-Rest : (pid flag : ℕ) (r : Router) → Rest r (new_pl malloc pid flag r).1
  unfolding new_pl
  new_pl-Rest pid flag r = ground arith

module _ (malloc : ℕ → Bool) (msgsnd : ℕ → Reply) where
  send_each-Rest :
      (s : Shm) (size : ℕ) (ps : List Proc) (r : Router)
      → Rest r (send_each malloc msgsnd s size ps r).3
  unfolding send_each offer send_one send_msg
  send_each-Rest s size [] r = ground arith
  send_each-Rest s size (p ∷ ps) r = ground (
    arith,
    send_each-Rest s size ps r,
    send_each-Rest (record s { count = s.count + 1 }) size ps
        (record (send_msg malloc msgsnd p.pid Cmd.buffer s.buf size 0
          (record r { allocs = r.allocs + 1 })) { msg_count = inc r.msg_count }),
  )

  send_buf-Rest : (s : Shm) (size : ℕ) (r : Router) → Rest r (send_buf malloc msgsnd s size r).2
  unfolding send_buf finish count_sent
  send_buf-Rest s size r = ground (arith, send_each-Rest s (clip size s) r.pl r)

  release_found-Rest :
      (flag size : ℕ) (before : List Shm) (s : Shm) (after : List Shm) (r : Router)
      → Rest r (release_found malloc msgsnd flag size before s after r).1
  unfolding release_found
  release_found-Rest flag size before s after r =
      let r' : Router = record r { stats = count_in size r.stats } in
      ground (
        arith,
        after_send-Rest before after r (send_buf malloc msgsnd s size r') (send_buf-Rest s size r'),
        drop_ref-Rest before s after r,
      )

  pub release_buf-Rest :
      (pid buf size : ℕ) (r : Router) → Rest r (release_buf malloc msgsnd pid buf size r).1
  unfolding release_buf
  release_buf-Rest pid buf size r = grind (arith, release_found-Rest)

  release_all-Rest : (fuel pid : ℕ) (r : Router) → Rest r (release_all malloc msgsnd fuel pid r)
  unfolding release_all
  release_all-Rest zero pid r = ground arith
  release_all-Rest (suc fuel) pid r = grind (arith, release_all-Rest fuel, release_buf-Rest)

  pub remove_pl-Rest : (pid : ℕ) (r : Router) → Rest r (remove_pl malloc msgsnd pid r).1
  unfolding remove_pl pl_release_buf_all
  remove_pl-Rest pid r = grind (arith, release_all-Rest)

  pub send_msg-Rest :
      (mtype : ℕ) (cmd : Cmd) (a b c : ℕ) (r : Router)
      → Rest r (send_msg malloc msgsnd mtype cmd a b c r)
  unfolding send_msg
  send_msg-Rest mtype cmd a b c r = ground arith

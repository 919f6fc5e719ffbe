-- ===== src/Router/Messages.antt =====
-- What the router does with one message of a client: `message` of src/router/src/listen.c. The log
-- output is left out.
use udaq.Base.{
  ℕ, zero, suc, Bool, true, false, not, ◌&&◌, ◌||◌, Option, none, some, List, [], ◌∷◌, ltb, ◌==◌,
  if◌then◌else◌, ℤ, pos, negsuc,
}
use udaq.Router.Shm.{Shm}
use udaq.Router.Protocol.{
  Msg, Cmd, connect, disconnect, refuse, buffer, release, getbuf, status, terminate, router_version,
  router_version_min, o_all, o_wronly, o_sample, is_writer,
}
use udaq.Router.Outbox.{Reply}
use udaq.Router.State.{Proc, Router, find_proc, flag_or_head}
use udaq.Router.Holds.{no_size, check_max_buf}
use udaq.Router.Buffers.{get_buf, new_pl, send_msg, release_buf, remove_pl}

abbrev pub is_buffer : Cmd → Bool
is_buffer buffer = true
is_buffer _ = false

-- The messages of a queue that are for a process, and those that are not.
unfoldable pub split_for : ℕ → List Msg → List Msg × List Msg
split_for pid [] = ([], [])
split_for pid (m ∷ ms) =
    let (mine, others) = split_for pid ms in
    if m.mtype == pid then (m ∷ mine, others) else (mine, m ∷ others)

abbrev pub is_known : Option Proc → Bool
is_known none = false
is_known (some p) = true

module _ (malloc : ℕ → Bool) (msgsnd : ℕ → Reply) where
  unfoldable pub refuse_to : ℕ → Router → Router
  refuse_to pid = send_msg malloc msgsnd pid refuse 0 0 0

  -- The end of the case RTR_CONNECT, from `new_pl` on.
  unfoldable pub admit : ℕ → Bool × Router → Router
  unfolding refuse_to
  admit pid (true, r) = send_msg malloc msgsnd pid connect 0 0 0 r
  admit pid (false, r) = refuse_to pid r

  unfoldable pub do_connect : Msg → Router → Router
  unfolding admit refuse_to
  do_connect m r =
      if is_known (find_proc m.pid r.pl)
      then r
      else if not (m.arg0 == o_all || m.arg0 == o_wronly || m.arg0 == o_sample)
      then refuse_to m.pid r
      else if ltb m.arg1 router_version_min
      then refuse_to m.pid r
      else if ltb router_version m.arg1
      then refuse_to m.pid r
      else admit m.pid (new_pl malloc m.pid m.arg0 r)

  -- `if(tmp_msg.cmd==RTR_BUFFER) release_buf(msg->pid, tmp_msg.arg[0], -1);` for each message.
  unfoldable pub release_buffers : ℕ → List Msg → Router → Router
  release_buffers pid [] r = r
  release_buffers pid (m ∷ ms) r =
      release_buffers pid ms
        (if is_buffer m.cmd then (release_buf malloc msgsnd pid m.arg0 no_size r).1 else r)

  -- The loop over the ring `que_head` releases for every message, whatever its command.
  unfoldable pub release_queued : ℕ → List Msg → Router → Router
  release_queued pid [] r = r
  release_queued pid (m ∷ ms) r =
      release_queued pid ms (release_buf malloc msgsnd pid m.arg0 no_size r).1

  unfoldable pub purge_que : ℕ → Router → Router
  purge_que pid r =
      let (mine, others) = split_for pid r.outbox.que in
      let r' : Router = release_queued pid mine r in
      record r' { outbox = record r'.outbox { que = others } }

  unfoldable pub purge_kernel : ℕ → Router → Router
  purge_kernel pid r =
      let (mine, others) = split_for pid r.outbox.kernel in
      let r' : Router = release_buffers pid mine r in
      record r' { outbox = record r'.outbox { kernel = others } }

  unfoldable pub purge_inbox : ℕ → Router → Router
  purge_inbox pid r =
      let (mine, others) = split_for pid r.inbox in
      let r' : Router = release_buffers pid mine r in record r' { inbox = others }

  unfoldable pub do_disconnect : ℕ → Router → Router
  unfolding purge_que purge_kernel purge_inbox
  do_disconnect pid r =
      (remove_pl malloc msgsnd pid (purge_inbox pid (purge_kernel pid (purge_que pid r)))).1

  -- A process that is not there leaves the head node of the ring, with flag 0, and the release goes on.
  unfoldable pub do_release : Msg → Router → ℤ × Router
  do_release m r =
      if is_writer (flag_or_head (find_proc m.pid r.pl)) && check_max_buf r.pl
      then (pos 1, r)
      else (pos 0, (release_buf malloc msgsnd m.pid m.arg0 m.arg1 r).1)

  -- The reply to a request for a buffer, by what `get_buf` returned.
  unfoldable pub answer : ℕ → ℤ × Option Shm × Router → ℤ × Router
  unfolding refuse_to
  answer pid (negsuc zero, _, r) = (pos 0, refuse_to pid r)
  answer pid (negsuc (suc n), _, r) = (pos 0, r)
  answer pid (pos zero, some n, r) = (pos 0, send_msg malloc msgsnd pid buffer n.buf n.size 0 r)
  answer pid (pos zero, none, r) = (pos 0, r)
  answer pid (pos (suc zero), _, r) = (pos 0, r)
  answer pid (pos (suc (suc zero)), _, r) = (pos 1, r)
  answer pid (pos (suc (suc (suc n))), _, r) = (pos 0, r)

  unfoldable pub do_getbuf : Msg → Router → ℤ × Router
  unfolding answer
  do_getbuf m r = answer m.pid (get_buf malloc m.pid m.arg0 r)

  unfoldable pub dispatch : Cmd → Msg → Router → ℤ × Router
  dispatch connect m r = (pos 0, do_connect m r)
  dispatch disconnect m r = (pos 0, do_disconnect m.pid r)
  dispatch release m r = do_release m r
  dispatch getbuf m r = do_getbuf m r
  dispatch status m r = (pos 0, r)
  dispatch terminate m r = (negsuc 0, record r { end_flag = true })
  dispatch _ m r = (pos 0, r)

  -- 0 where the message is done, 1 where it has to wait, -1 at the end.
  unfoldable pub message : Msg → Router → ℤ × Router
  unfolding dispatch
  message m r = dispatch m.cmd m r

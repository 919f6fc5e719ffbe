-- ===== src/Client/Session.antt =====
-- A session with a router: router_connect, router_request_buf, router_get_buf, router_release_buf,
-- router_disconnect and cleanup of src/router/src/router_lib.c. What the system calls answer is a
-- parameter; messages to the user and the signal hooks are left out.
use udaq.Base.{
  ℕ, zero, suc, ◌+◌, ◌-◌, Bool, true, false, ◌||◌, Option, none, some, List, [], ◌∷◌, ◌++◌, ◌==◌,
  if◌then◌else◌, ℤ, pos, negsuc, same,
}
use udaq.Router.Protocol.{
  Msg, Cmd, connect, disconnect, buffer, release, getbuf, mtype_router, router_version, o_all,
  o_wronly, o_sample, is_writer,
}
use udaq.Client.Desc.{Desc, Client, open_fd, check_fd, set_desc, close_fd, mnodesc}
use udaq.Client.Key.{get_key, get_key_out}

-- What one call of `msgrcv` gives.
pub data Received : Type 0 where
  got : Msg → Received
  signalled broken : Received

-- The system around a client: its pid, the queue and the memory of a key, where the memory is attached
-- for writing or for reading, and whether the system takes the message.
pub record System : Type 0 where
  pub has_memory : Bool
  pub getpid : ℕ
  pub msgget : ℕ → ℤ
  pub shmget : ℕ → ℤ
  pub shmat : ℤ → Bool → Option ℕ
  pub msgsnd : ℤ → Msg → Bool

abbrev pub is_connect : Cmd → Bool
is_connect connect = true
is_connect _ = false

-- `while(1){ res = msgrcv(...); if(errno==EINTR) continue; ... }`; none is a wait that does not end.
unfoldable pub receive : List Received → Option (Option Msg × List Received)
receive [] = none
receive (got m ∷ rs) = some (some m, rs)
receive (signalled ∷ rs) = receive rs
receive (broken ∷ rs) = some (none, rs)

module _ (sys : System) where
  abbrev pub command : Cmd → Msg → Msg
  command c m = record m { mtype = mtype_router; pid = sys.getpid; cmd = c }

  abbrev pub write_msg : Msg → Desc → Desc
  write_msg m d = record d { msg_snd = m }

  -- `msgsnd(desc[fd].msg_id_out, &desc[fd].msg_snd, ...)`, once `msg_snd` is written.
  abbrev pub send_out : ℤ → Desc → Msg → Client → Bool × Client
  send_out fd d m c =
      let c' : Client = set_desc fd (write_msg m) c in
      if sys.msgsnd d.msg_id_out m
      then (true, record c' { posted = c'.posted ++ (d.msg_id_out, m) ∷ [] })
      else (false, c')

  abbrev pub detach : Desc → Desc
  detach d = record d { shm_buf = none }

  -- `router_disconnect`, at an open node.
  unfoldable pub hang_up : ℤ → Desc → Client → Client
  unfolding close_fd set_desc
  hang_up fd d c =
      let c' : Client =
        if d.is_connected then (send_out fd d (command disconnect d.msg_snd) c).1 else c in
      (close_fd fd (set_desc fd detach c')).1

  unfoldable pub router_disconnect : ℤ → Client → Client
  unfolding hang_up check_fd
  router_disconnect fd c = elim (check_fd fd c) [ none ↦ c | some d ↦ hang_up fd d c ]

  -- The loop of `cleanup` over the numbers below `n`, from `i` on.
  unfoldable pub disconnect_from : ℕ → ℕ → Client → Client
  disconnect_from i zero c = c
  disconnect_from i (suc n) c = disconnect_from (i + 1) n (router_disconnect (pos i) c)

  unfoldable pub cleanup : Client → Client
  unfolding disconnect_from
  cleanup c = disconnect_from 0 mnodesc c

  abbrev pub fail : ℤ → Client → ℤ × Client
  fail fd c = (negsuc 0, router_disconnect fd c)

  abbrev pub fail_with : ℤ → ℤ → Client → ℤ × Client
  fail_with e fd c = (negsuc 0, record (router_disconnect fd c) { errno = e })

  -- From the reply on: the shared memory.
  unfoldable pub attach : ℕ → ℤ → Desc → Client → ℤ × Client
  attach mode fd d c =
      let id = sys.shmget d.key in
      let at = sys.shmat id (is_writer mode) in
      let c' : Client = set_desc fd (λ e. record e { is_connected = true; shm_id = id }) c in
      if same id (negsuc 0) then fail_with (negsuc 11) fd c' else elim at [
        | none ↦ fail_with (negsuc 12) fd c'
        | some a ↦ (fd, set_desc fd (λ e. record e { shm_buf = some a }) c')
      ]

  unfoldable pub wait_reply :
      ℕ → ℤ → Desc → Option (Option Msg × List Received) → Client → Option (ℤ × Client)
  unfolding attach
  wait_reply mode fd d none c = none
  wait_reply mode fd d (some (none, rs)) c = some (fail fd c)
  wait_reply mode fd d (some (some m, rs)) c =
      let c' : Client = set_desc fd (λ e. record e { msg_rcv = m }) c in
      some (if is_connect m.cmd then attach mode fd d c' else fail_with (negsuc 10) fd c')

  abbrev pub connect_msg : ℕ → Msg
  connect_msg mode = record {
    mtype = mtype_router;
    pid = sys.getpid;
    cmd = connect;
    arg0 = mode;
    arg1 = router_version;
    arg2 = 0;
  }

  abbrev pub keyed : List ℕ → ℕ → ℕ → Desc → Desc
  keyed router uid mode d = record d {
    fmode = mode;
    key = get_key router uid;
    key_in = get_key_out router uid;
    key_out = get_key router uid;
    msg_id_in = sys.msgget (get_key_out router uid);
  }

  abbrev pub with_out : Desc → Desc
  with_out d = record d { msg_id_out = sys.msgget d.key_out }

  -- From the first `msgget` on, with the descriptor `fd` open at `d`.
  unfoldable pub call_router :
      List Received → List ℕ → ℕ → ℕ → ℤ → Desc → Client → Option (ℤ × Client)
  unfolding wait_reply
  call_router rs router uid mode fd d c =
      let d1 : Desc = keyed router uid mode d in
      let c1 : Client = set_desc fd (keyed router uid mode) c in
      let d2 : Desc = with_out d1 in
      let c2 : Client = set_desc fd with_out c1 in
      let (ok, c3) = send_out fd d2 (connect_msg mode) c2 in
      if same d1.msg_id_in (negsuc 0)
      then some (fail fd c1)
      else if same d2.msg_id_out (negsuc 0)
      then some (fail fd c2)
      else if ok
      then wait_reply mode fd d2 (receive rs) c3
      else some (fail fd c3)

  unfoldable pub after_open : List Received → List ℕ → ℕ → ℕ → ℤ × Client → Option (ℤ × Client)
  unfolding call_router check_fd
  after_open rs router uid mode (fd, c) = elim (check_fd fd c) [
    | none ↦ some (negsuc 0, c)
    | some d ↦
        if mode == o_all || mode == o_sample || mode == o_wronly
        then call_router rs router uid mode fd d c
        else some (fail_with (negsuc 9) fd c)
  ]

  -- none where the wait for the reply does not end.
  unfoldable pub router_connect : List Received → List ℕ → ℕ → ℕ → Client → Option (ℤ × Client)
  unfolding after_open open_fd
  router_connect rs router uid mode c = after_open rs router uid mode (open_fd sys.has_memory c)

  abbrev pub illegal_fd : Client → ℤ × Client
  illegal_fd c = (negsuc 0, record c { errno = negsuc 9 })

  -- `res` is what the variable holds that the source never sets, and `signal` whether `errno` says EINTR;
  -- none is a loop that goes on.
  unfoldable pub router_request_buf : ℤ → Bool → ℤ → ℕ → Client → Option (ℤ × Client)
  unfolding check_fd
  router_request_buf res signal fd size c = elim (check_fd fd c) [
    | none ↦ some (illegal_fd c)
    | some d ↦
        let m : Msg = record (command getbuf d.msg_snd) { arg0 = size; arg1 = 0; arg2 = 0 } in
        let (ok, c') = send_out fd d m c in
        if ok
        then (if same res (negsuc 0)
            then (if signal then none else some (negsuc 0, c'))
            else some (pos 0, c'))
        else some (negsuc 0, c')
  ]

  abbrev is_buf : Cmd → Bool
  is_buf buffer = true
  is_buf _ = false

  -- The loop of `router_get_buf`: what it returns, the message and what is left to receive.
  unfoldable pub next_buffer : List Received → Option (Option Msg × List Received)
  next_buffer [] = none
  next_buffer (got m ∷ rs) =
      let rest = next_buffer rs in if is_buf m.cmd then some (some m, rs) else rest
  next_buffer (signalled ∷ rs) = next_buffer rs
  next_buffer (broken ∷ rs) = some (none, rs)

  -- `router_get_buf`: where the buffer is and its size, none where an error is returned. What the
  -- messages that are ignored leave in `msg_rcv` is left out, and so is a node without memory, which
  -- `router_connect` never leaves open.
  unfoldable pub router_get_buf : List Received → ℤ → Client → Option (Option (ℕ × ℕ) × Client)
  unfolding check_fd next_buffer
  router_get_buf rs fd c = elim (check_fd fd c) [
    | none ↦ some (none, record c { errno = negsuc 9 })
    | some d ↦ elim (next_buffer rs) [
      | none ↦ none
      | some t ↦ elim t.0 [
        | none ↦ some (none, c)
        | some m ↦
            let c' : Client = set_desc fd (λ e. record e { msg_rcv = m }) c in
            some (elim d.shm_buf [ none ↦ none | some a ↦ some (a + m.arg0, m.arg1) ], c')
      ]
    ]
  ]

  abbrev pub base_of : Desc → ℕ
  base_of d = elim d.shm_buf [ none ↦ 0 | some a ↦ a ]

  -- `router_release_buf`. A signal only makes the source call `msgsnd` again.
  unfoldable pub router_release_buf : ℤ → ℕ → ℕ → Client → ℤ × Client
  unfolding check_fd
  router_release_buf fd buf size c = elim (check_fd fd c) [
    | none ↦ illegal_fd c
    | some d ↦
        let m : Msg = record (command release d.msg_snd) {
          arg0 = buf - base_of d;
          arg1 = size;
          arg2 = 0;
        } in
        let (ok, c') = send_out fd d m c in if ok then (pos 0, c') else (negsuc 0, c')
  ]

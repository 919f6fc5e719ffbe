-- ===== src/Router/Buffers.antt =====
-- How buffers are handed out and taken back: get_shm, send_msg, send_buf, release_buf,
-- pl_release_buf_all, new_pl, remove_pl and get_buf of src/router/src/listen.c.
-- `malloc n` says whether the n-th call of malloc gives memory, `msgsnd n` what the system answers to
-- the n-th message that is sent.
use udaq.Base.{
  ℕ, zero, suc, ◌+◌, Bool, true, false, not, ◌&&◌, Option, none, some, List, [], ◌∷◌, ◌++◌, ltb,
  leb, ◌==◌, if◌then◌else◌, ℤ, pos, negsuc, inc, same, length,
}
use udaq.Router.Shm.{Shm, round_up, Walk, no_fit, whole, cut, walk, shm_free_insert}
use udaq.Router.Protocol.{Msg, Cmd, mtype_router, is_writer, is_sampler}
use udaq.Router.Outbox.{Reply, que_msg, que_snd}
use udaq.Router.State.{Proc, Router, find_proc, flag_or_head, at_proc}
use udaq.Router.Holds.{
  max_samp_buf, max_send_buf, max_write_buf, no_size, pl_remove_buf, pl_add_buf, check_max_buf,
  count_in, count_out, bump_last, drop_last, find_used, drop_ref,
}

-- What the loop of `send_buf` does for one process: the process, the node and the router after it, or
-- the end of the loop with -1.
pub data Verdict : Type 0 where
  go_on : Proc → Shm → Router → Verdict
  give_up : Router → Verdict

-- The bytes sent, at most the size of the node.
abbrev pub clip : ℕ → Shm → ℕ
clip size shm = if ltb shm.size size then shm.size else size

abbrev pub holds_of : Option Proc → List ℕ
holds_of none = []
holds_of (some p) = p.bl

-- The first process with the pid leaves the list.
unfoldable pub drop_proc : ℕ → List Proc → List Proc
drop_proc pid [] = []
drop_proc pid (p ∷ ps) = if p.pid == pid then ps else p ∷ drop_proc pid ps

module _ (malloc : ℕ → Bool) where
  -- `place` is what `get_shm` does where its walk ends. The node that it returns is the last of the used
  -- list afterwards.
  unfoldable pub place : Walk → Router → Option Shm × Router
  place no_fit r = (none, r)
  place (whole n rest) r = (some n, record r { free = rest; used = r.used ++ n ∷ [] })
  place (cut n rest) r =
      if malloc r.allocs
      then (some n, record r { free = rest; used = r.used ++ n ∷ []; allocs = r.allocs + 1 })
      else (none, record r { allocs = r.allocs + 1 })

  unfoldable pub get_shm : ℕ → Router → Option Shm × Router
  unfolding place
  get_shm size r = place (walk (round_up size) r.free) r

  -- `pl_hold` is the end of `get_buf`, from `shm->count++` on.
  unfoldable pub pl_hold : ℕ → Shm → Router → ℤ × Option Shm × Router
  pl_hold pid n r =
      if malloc r.allocs
      then (
        pos 0,
        some (record n { count = n.count + 1 }),
        record r {
          used = bump_last r.used;
          pl = at_proc (pl_add_buf n.buf) pid r.pl;
          msg_count = inc r.msg_count;
          allocs = r.allocs + 1;
        },
      )
      else (
        negsuc 0,
        none,
        record r {
          used = drop_last (bump_last r.used);
          free = (shm_free_insert (record n { count = n.count + 1 }) r.free).1;
          allocs = r.allocs + 1;
        },
      )

  unfoldable pub hand_out : ℕ → Option Shm × Router → ℤ × Option Shm × Router
  hand_out pid (none, r) = (pos 2, none, r)
  hand_out pid (some n, r) = pl_hold pid n r

  -- 0 with the node, -2 or -1 for an error, 2 where the request has to wait.
  unfoldable pub get_buf : ℕ → ℕ → Router → ℤ × Option Shm × Router
  unfolding hand_out
  get_buf pid size r = elim (find_proc pid r.pl) [
    | none ↦ (negsuc 1, none, r)
    | some p ↦
        if not (is_writer p.flag)
        then (negsuc 0, none, r)
        else if leb max_write_buf p.cnt
        then (pos 2, none, r)
        else if ltb r.shmsize (round_up size)
        then (negsuc 0, none, r)
        else hand_out pid (get_shm (round_up size) r)
  ]

  -- `id` is an `int`, so a pid that does not fit one is changed in the source; here it stays.
  unfoldable pub new_pl : ℕ → ℕ → Router → Bool × Router
  new_pl id flag r =
      if malloc r.allocs
      then (
        true,
        record r {
          pl = r.pl ++ record { pid = id; flag = flag; cnt = 0; cnt_total = 0; bl = [] } ∷ [];
          allocs = r.allocs + 1;
        },
      )
      else (false, record r { allocs = r.allocs + 1 })

-- The statistics of a buffer that went to somebody.
unfoldable pub count_sent : ℤ → ℕ → Router → Router
count_sent before size r =
    if same before r.msg_count then r else record r { stats = count_out size r.stats }

unfoldable pub finish : Router → ℕ → ℤ × Shm × List Proc × Router → ℤ × Shm × Router
unfolding count_sent
finish r size (pos n, shm, ps, r') =
    (pos n, shm, count_sent r.msg_count size (record r' { pl = ps }))
finish r size (negsuc n, shm, ps, r') = (negsuc n, shm, record r' { pl = ps })

-- The end of `release_buf`, after `send_buf`.
unfoldable pub after_send : List Shm → List Shm → ℤ × Shm × Router → ℤ × Router
after_send before after (pos n, shm, r) = drop_ref before shm after r
after_send before after (negsuc n, shm, r) = (negsuc 0, record r { used = before ++ (shm ∷ after) })

module _ (malloc : ℕ → Bool) (msgsnd : ℕ → Reply) where
  -- The results of que_msg and que_snd are not looked at.
  unfoldable pub send_msg : ℕ → Cmd → ℕ → ℕ → ℕ → Router → Router
  send_msg mtype cmd arg0 arg1 arg2 r =
      let m : Msg = record {
        mtype = mtype;
        pid = mtype_router;
        cmd = cmd;
        arg0 = arg0;
        arg1 = arg1;
        arg2 = arg2;
      } in
      record r {
        outbox = (que_snd msgsnd r.msg_count (que_msg (malloc r.allocs) m r.outbox).1).1;
        allocs = r.allocs + 1;
      }

  -- A buffer goes to one reader.
  unfoldable pub send_one : Shm → ℕ → Proc → Router → Verdict
  send_one shm size p r =
      let r' : Router =
        send_msg p.pid Cmd.buffer shm.buf size 0 (record r { allocs = r.allocs + 1 }) in
      if malloc r.allocs
      then go_on (pl_add_buf shm.buf p) (record shm { count = shm.count + 1 })
          (record r' { msg_count = inc r.msg_count })
      else give_up (record r { allocs = r.allocs + 1 })

  unfoldable pub offer : Shm → ℕ → Proc → Router → Verdict
  offer shm size p r =
      if is_writer p.flag
      then go_on p shm r
      else if is_sampler p.flag && leb max_samp_buf p.cnt
      then go_on p shm r
      else if not (is_sampler p.flag) && leb max_send_buf p.cnt
      then give_up r
      else send_one shm size p r

  -- The second loop of `send_buf`, over the processes that are left.
  unfoldable pub send_each : Shm → ℕ → List Proc → Router → ℤ × Shm × List Proc × Router
  send_each shm size [] r = (pos 0, shm, [], r)
  send_each shm size (p ∷ ps) r = elim (offer shm size p r) [
    | give_up r' ↦ (negsuc 0, shm, p ∷ ps, r')
    | go_on p' shm' r' ↦
        let (code, shm'', ps', r'') = send_each shm' size ps r' in (code, shm'', p' ∷ ps', r'')
  ]

  -- 0, or 2 where a reader is full, or -1 where memory ran out in the midst.
  unfoldable pub send_buf : Shm → ℕ → Router → ℤ × Shm × Router
  unfolding finish
  send_buf shm size r =
      if check_max_buf r.pl
      then (pos 2, shm, r)
      else finish r (clip size shm) (send_each shm (clip size shm) r.pl r)

  unfoldable pub release_found : ℕ → ℕ → List Shm → Shm → List Shm → Router → ℤ × Router
  unfolding after_send
  release_found flag size before shm after r =
      if is_writer flag && ltb 0 size
      then after_send before after (send_buf shm size (record r { stats = count_in size r.stats }))
      else drop_ref before shm after r

  unfoldable pub release_buf : ℕ → ℕ → ℕ → Router → ℤ × Router
  release_buf pid buf size r =
      let r' : Router = record r { pl = at_proc (pl_remove_buf buf) pid r.pl } in
      elim (find_used buf r.used) [
        | none ↦ (negsuc 0, r')
        | some (before, shm, after) ↦
            release_found (flag_or_head (find_proc pid r.pl)) size before shm after r'
      ]

  -- The loop of `pl_release_buf_all`, which releases the first buffer that the process holds; the
  -- fuel is the number of buffers.
  unfoldable pub release_all : ℕ → ℕ → Router → Router
  release_all zero pid r = r
  release_all (suc fuel) pid r = elim (holds_of (find_proc pid r.pl)) [
    | [] ↦ r
    | b ∷ bs ↦ release_all fuel pid (release_buf pid b no_size r).1
  ]

  unfoldable pub pl_release_buf_all : ℕ → Router → ℤ × Router
  pl_release_buf_all pid r = elim (find_proc pid r.pl) [
    | none ↦ (negsuc 0, r)
    | some p ↦ (pos 0, release_all (length p.bl) pid r)
  ]

  unfoldable pub remove_pl : ℕ → Router → ℤ × Router
  remove_pl pid r =
      let r' : Router = (pl_release_buf_all pid r).1 in
      elim (find_proc pid r'.pl) [
        | none ↦ (negsuc 0, r')
        | some p ↦ (pos 0, record r' { pl = drop_proc pid r'.pl })
      ]

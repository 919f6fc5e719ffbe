-- ===== src/Router/Delivery.antt =====
-- What a buffer's way to the readers comes to: send_buf of src/router/src/listen.c against a
-- specification by `map` and `filter`-like functions of the process list.
use udaq.Base.{
  ℕ, ◌+◌, ◌≡◌, refl, ap, sym, ◌∙◌, Bool, true, false, not, ◌&&◌, List, [], ◌∷◌, ◌++◌, map, arith,
  leb, if◌then◌else◌, ℤ, pos, negsuc, inc, inl, inr, Bool-cases,
}
use mathlib.Core.List.{append_assoc, append-nil}
use udaq.Router.Shm.{Shm}
use udaq.Router.Protocol.{Msg, Cmd, mtype_router, is_writer, is_sampler}
use udaq.Router.Outbox.{Reply, que_msg}
use udaq.Router.Outbox.Order.{log, que_snd-log}
use udaq.Router.State.{Proc, Router}
use udaq.Router.Holds.{max_samp_buf, pl_add_buf, is_full_reader, check_max_buf}
use udaq.Router.Buffers.{
  Verdict, clip, send_msg, send_one, offer, send_each, count_sent, finish, send_buf,
}

-- A process gets every buffer if it is a reader, and only while it has few if it is a sampler.
abbrev pub wants : Proc → Bool
wants p = not (is_writer p.flag) && not (is_sampler p.flag && leb max_samp_buf p.cnt)

abbrev pub delivered : ℕ → Proc → Proc
delivered b p = if wants p then pl_add_buf b p else p

abbrev pub notice : ℕ → ℕ → Proc → Msg
notice b size p = record {
  mtype = p.pid;
  pid = mtype_router;
  cmd = Cmd.buffer;
  arg0 = b;
  arg1 = size;
  arg2 = 0;
}

-- One message to each process that gets the buffer, in the order of the process list.
abbrev pub notices : ℕ → ℕ → List Proc → List Msg
notices b size [] = []
notices b size (p ∷ ps) = if wants p then notice b size p ∷ notices b size ps else notices b size ps

abbrev pub readers : List Proc → ℕ
readers [] = 0
readers (p ∷ ps) = (if wants p then 1 else 0) + readers ps

module _ (malloc : ℕ → Bool) (msgsnd : ℕ → Reply) (memory : (n : ℕ) → malloc n ≡ true) where
  -- With memory for its node, a message that is sent is queued behind all others, and none is lost.
  send_msg-log :
      (mtype : ℕ) (cmd : Cmd) (a b c : ℕ) (r : Router)
      → log (send_msg malloc msgsnd mtype cmd a b c r).outbox
        ≡ log r.outbox
          ++ record { mtype = mtype; pid = mtype_router; cmd = cmd; arg0 = a; arg1 = b; arg2 = c }
            ∷ []
  unfolding send_msg que_msg
  send_msg-log mtype cmd a b c r =
      let m : Msg = record {
        mtype = mtype;
        pid = mtype_router;
        cmd = cmd;
        arg0 = a;
        arg1 = b;
        arg2 = c;
      } in
      rw (memory r.allocs) (
        que_snd-log msgsnd r.msg_count
          (record (r.outbox) { que = r.outbox.que ++ m ∷ []; que_count = r.outbox.que_count + 1 })
        ∙ sym (append_assoc r.outbox.kernel r.outbox.que (m ∷ [])))

  -- The state after a buffer went to one reader.
  abbrev told : Shm → ℕ → Proc → Router → Router
  told s size p r =
      record (send_msg malloc msgsnd p.pid Cmd.buffer s.buf size 0
        (record r { allocs = r.allocs + 1 })) { msg_count = inc r.msg_count }

  told-log :
      (s : Shm) (size : ℕ) (p : Proc) (r : Router)
      → log (told s size p r).outbox ≡ log r.outbox ++ notice s.buf size p ∷ []
  told-log s size p r =
      send_msg-log p.pid Cmd.buffer s.buf size 0 (record r { allocs = r.allocs + 1 })

  offer_lem :
      (s : Shm) (size : ℕ) (p : Proc) (r : Router)
      → is_full_reader p ≡ false
      → offer malloc msgsnd s size p r ≡ (
          if wants p
          then Verdict.go_on
              (pl_add_buf s.buf p)
              (record s { count = s.count + 1 })
              (told s size p r)
          else Verdict.go_on p s r)
  unfolding offer send_one
  offer_lem s size p r h = ground (arith, memory r.allocs)

  -- What `send_each` comes to when no reader is full.
  abbrev Delivered : Shm → ℕ → List Proc → Router → ℤ × Shm × List Proc × Router → Type 0
  Delivered s size ps r (code, s', ps', r') =
      (code ≡ pos 0)
      × (s'.buf ≡ s.buf)
      × (s'.count ≡ s.count + readers ps)
      × (ps' ≡ map (delivered s.buf) ps)
      × (log r'.outbox ≡ log r.outbox ++ notices s.buf size ps)

  send_each-Delivered :
      (s : Shm) (size : ℕ) (ps : List Proc) (r : Router)
      → check_max_buf ps ≡ false
      → Delivered s size ps r (send_each malloc msgsnd s size ps r)
  unfolding send_each check_max_buf
  send_each-Delivered s size [] r h = (refl, refl, omega arith, refl, sym (append-nil _))
  send_each-Delivered s size (p ∷ ps) r h = elim (Bool-cases (wants p)) [
    | inl w ↦
        let r' = told s size p r in
        let (c, b, n, pl, l) =
          send_each-Delivered (record s { count = s.count + 1 }) size ps r' (ground arith) in
        rw (offer_lem s size p r (ground arith), w, send_each)
          (
            c,
            b,
            omega (arith, n),
            ap (◌∷◌ (pl_add_buf s.buf p)) pl,
            l
                ∙ ap (λ (ms : List Msg). ms ++ notices s.buf size ps) (told-log s size p r)
                ∙ append_assoc (log r.outbox) _ _,
          )
    | inr w ↦
        let (c, b, n, pl, l) = send_each-Delivered s size ps r (ground arith) in
        rw (offer_lem s size p r (ground arith), w, send_each)
          (c, b, omega (arith, n), ap (◌∷◌ p) pl, l)
  ]

  abbrev Sent : Shm → ℕ → Router → ℤ × Shm × Router → Type 0
  Sent s size r (code, s', r') =
      (code ≡ pos 0)
      × (s'.count ≡ s.count + readers r.pl)
      × (r'.pl ≡ map (delivered s.buf) r.pl)
      × (log r'.outbox ≡ log r.outbox ++ notices s.buf size r.pl)

  finish-Sent :
      (s : Shm) (size : ℕ) (r : Router) (t : ℤ × Shm × List Proc × Router)
      → Delivered s size r.pl r t
      → Sent s size r (finish r size t)
  unfolding finish count_sent
  finish-Sent s size r (pos n, s', ps', r') (c, b, k, pl, l) =
      (c, k, ground (arith, pl), ground (arith, l))
  finish-Sent s size r (negsuc n, s', ps', r') (c, b, k, pl, l) = cc

  -- With memory, and no reader that is full, `send_buf` gives the buffer to every reader and to every
  -- sampler that has fewer than 30: it is the last of what each of these holds and counted once for each,
  -- the others keep what they have, and behind all earlier messages there is one for each receiver, in
  -- the order of the process list, with the size, at most that of the node.
  pub send_buf-delivers :
      (s : Shm) (size : ℕ) (r : Router)
      → check_max_buf r.pl ≡ false
      → let (code, s', r') = send_buf malloc msgsnd s size r in
        (code ≡ pos 0)
        × (s'.count ≡ s.count + readers r.pl)
        × (r'.pl ≡ map (delivered s.buf) r.pl)
        × (log r'.outbox ≡ log r.outbox ++ notices s.buf (clip size s) r.pl)
  unfolding send_buf
  send_buf-delivers s size r h =
      rw (h, send_buf)
        (finish-Sent s (clip size s) r _ (send_each-Delivered s (clip size s) r.pl r h))

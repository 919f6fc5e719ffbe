-- ===== src/Router/Limits.antt =====
-- No process holds more buffers than its kind may, and pids are not used twice, whatever the clients do.
use udaq.Base.{
  ℕ, ◌+◌, ◌≤◌, ◌<◌, ◌≡◌, refl, sym, ◌∙◌, Bool, ◌&&◌, Option, none, some, List, [], ◌∷◌, arith, ltb,
  ◌==◌, if◌then◌else◌, ℤ, pos, negsuc, inc, inl, inr, Bool-cases, Option-cases, if-either, length,
  length-append, All, All-append,
}
use udaq.Router.Shm.{Shm, round_up}
use udaq.Router.Protocol.{Cmd, is_writer, is_sampler}
use udaq.Router.Outbox.{Reply}
use udaq.Router.State.{Proc, Router, start, find_proc, at_proc, flag_or_head}
use udaq.Router.Holds.{
  max_samp_buf, max_send_buf, max_write_buf, remove_first, pl_remove_buf, pl_add_buf, find_used,
  count_in,
}
use udaq.Router.Buffers.{
  clip, drop_proc, get_shm, hand_out, pl_hold, get_buf, new_pl, send_msg, send_one, offer,
  send_each, count_sent, finish, send_buf, after_send, release_found, release_buf,
}
use udaq.Router.Listen.{Reach}
use udaq.Router.References.Release.{drop_ref-pl}
use udaq.Router.References.Grant.{Taken, get_shm-Taken}
use udaq.Router.Keeps.{Kept, Reach-keeps}

-- A writer may hold 5 buffers, a sampler 30, another reader 100.
abbrev pub limit : ℕ → ℕ
limit flag =
    if is_writer flag then max_write_buf else if is_sampler flag then max_samp_buf else max_send_buf

abbrev pub Within : Proc → Type 0
Within p = (p.cnt ≡ length p.bl) × (p.cnt ≤ limit p.flag)

remove_first-length :
    (b : ℕ) (cs rest : List ℕ) → remove_first b cs ≡ some rest → length cs ≡ length rest + 1
unfolding remove_first
remove_first-length b [] rest e = cc
remove_first-length b (c ∷ cs) rest e = elim (Option-cases (remove_first b cs)) [
  | inl g ↦ ground arith
  | inr (more, g) ↦ ground (arith, remove_first-length b cs more g)
]

pl_remove_buf-Within : (b : ℕ) (p : Proc) → Within p → Within (pl_remove_buf b p)
unfolding pl_remove_buf
pl_remove_buf-Within b p v = elim (Option-cases (remove_first b p.bl)) [
  | inl g ↦ rw (g, pl_remove_buf) v
  | inr (rest, g) ↦
      rw (g, pl_remove_buf) (omega (arith, v, remove_first-length b p.bl rest g), omega (arith, v))
]

at_proc-Within :
    (f : Proc → Proc) (pid : ℕ) (pl : List Proc)
    → ((p : Proc) → find_proc pid pl ≡ some p → Within p → Within (f p))
    → All Within pl
    → All Within (at_proc f pid pl)
unfolding at_proc find_proc
at_proc-Within f pid [] h v = tt
at_proc-Within f pid (p ∷ ps) h v = elim (Bool-cases (p.pid == pid)) [
  | inl e ↦ rw e (h p (rw e) v.0, v.1)
  | inr e ↦ rw e (v.0, at_proc-Within f pid ps (λ q g. h q (rw e g)) v.1)
]

drop_proc-Within : (pid : ℕ) (pl : List Proc) → All Within pl → All Within (drop_proc pid pl)
unfolding drop_proc
drop_proc-Within pid [] v = tt
drop_proc-Within pid (p ∷ ps) v = ground (arith, drop_proc-Within pid ps)

pl_add_buf-Within : (b : ℕ) (p : Proc) → Within p → p.cnt < limit p.flag → Within (pl_add_buf b p)
unfolding pl_add_buf
pl_add_buf-Within b p v h = (omega (arith, v, length-append p.bl (b ∷ [])), omega (arith, h))

abbrev ListWithin : Router → Type 0
ListWithin r = All Within r.pl

module _ (malloc : ℕ → Bool) (msgsnd : ℕ → Reply) where
  send_each-Within :
      (s : Shm) (size : ℕ) (ps : List Proc) (r : Router)
      → All Within ps
      → All Within (send_each malloc msgsnd s size ps r).2
  unfolding send_each offer send_one
  send_each-Within s size [] r v = tt
  send_each-Within s size (p ∷ ps) r v = ground (
    arith,
    pl_add_buf-Within s.buf p v.0,
    send_each-Within s size ps r v.1,
    send_each-Within (record s { count = s.count + 1 }) size ps
        (record (send_msg malloc msgsnd p.pid Cmd.buffer s.buf size 0
          (record r { allocs = r.allocs + 1 })) { msg_count = inc r.msg_count })
        v.1,
  )

  send_buf-Within :
      (s : Shm) (size : ℕ) (r : Router)
      → ListWithin r
      → ListWithin (send_buf malloc msgsnd s size r).2
  unfolding send_buf finish count_sent
  send_buf-Within s size r v = ground (arith, send_each-Within s (clip size s) r.pl r v)

  after_send-Within :
      (before after : List Shm) (t : ℤ × Shm × Router)
      → ListWithin t.2
      → ListWithin (after_send before after t).1
  unfolding after_send
  after_send-Within before after (pos n, s, r) v = rw (drop_ref-pl before s after r) v
  after_send-Within before after (negsuc n, s, r) v = v

  release_buf-Within :
      (pid buf size : ℕ) (r : Router)
      → ListWithin r
      → ListWithin (release_buf malloc msgsnd pid buf size r).1
  unfolding release_buf release_found
  release_buf-Within pid buf size r v =
      let r' : Router = record r { pl = at_proc (pl_remove_buf buf) pid r.pl } in
      let v' : ListWithin r' =
        at_proc-Within (pl_remove_buf buf) pid r.pl (λ p e. pl_remove_buf-Within buf p) v in
      elim (Option-cases (find_used buf r.used)) [
        | inl e ↦ rw (e, release_buf) v'
        | inr ((before, s, after), e) ↦
            rw (e, release_buf)
              (if-either (λ (t : ℤ × Router). ListWithin t.1)
                (is_writer (flag_or_head (find_proc pid r.pl)) && ltb 0 size)
                (after_send-Within before after _
                  (send_buf-Within s size (record r' { stats = count_in size r'.stats }) v'))
                (rw (drop_ref-pl before s after r') v'))
      ]

module _ (malloc : ℕ → Bool) where
  pl_hold-Within :
      (pid : ℕ) (n : Shm) (r : Router) (p : Proc)
      → find_proc pid r.pl ≡ some p
      → p.cnt < limit p.flag
      → ListWithin r
      → ListWithin (pl_hold malloc pid n r).2
  unfolding pl_hold
  pl_hold-Within pid n r p e h v =
      if-either (λ (t : ℤ × Option Shm × Router). ListWithin t.2) (malloc r.allocs)
        (at_proc-Within (pl_add_buf n.buf) pid r.pl
          (λ q g w. pl_add_buf-Within n.buf q w (ground (arith, sym e ∙ g))) v)
        v

  hand_out-Within :
      (pid : ℕ) (r : Router) (p : Proc) (t : Option Shm × Router)
      → find_proc pid r.pl ≡ some p
      → p.cnt < limit p.flag
      → Taken r t
      → ListWithin r
      → ListWithin (hand_out malloc pid t).2
  unfolding hand_out
  hand_out-Within pid r p (none, r') e h t v = rw t.0 v
  hand_out-Within pid r p (some n, r') e h t v = pl_hold-Within pid n r' p (rw t.0 e) h (rw t.0 v)

  get_buf-Within :
      (pid size : ℕ) (r : Router) → ListWithin r → ListWithin (get_buf malloc pid size r).2
  unfolding get_buf
  get_buf-Within pid size r v = elim (Option-cases (find_proc pid r.pl)) [
    | inl e ↦ rw (e, get_buf) v
    | inr (p, e) ↦
        rw (e, get_buf)
          (ground (
            arith,
            hand_out-Within pid r p (get_shm malloc (round_up size) r) e,
            get_shm-Taken malloc (round_up size) r,
            v,
          ))
  ]

  new_pl-Within :
      (pid flag : ℕ) (r : Router) → ListWithin r → ListWithin (new_pl malloc pid flag r).1
  unfolding new_pl
  new_pl-Within pid flag r v =
      if-either (λ (t : Bool × Router). ListWithin t.1) (malloc r.allocs)
        (All-append Within r.pl _ v ((refl, ground arith), tt)) v

module _ (malloc : ℕ → Bool) (msgsnd : ℕ → Reply) where
  within-Kept : Kept malloc msgsnd ListWithin
  within-Kept = record {
    on_release = release_buf-Within malloc msgsnd;
    on_grant = get_buf-Within malloc;
    on_join = λ pid flag r e v. new_pl-Within malloc pid flag r v;
    on_drop = λ pid r e v. drop_proc-Within pid r.pl v;
    on_queues = λ o i x w n e r v. v;
  }

  -- Whatever the clients send, in every state each process holds as many buffers as its counter says, and
  -- at most 5 if it is a writer, 30 if it is a sampler, 100 if it is another reader.
  pub Reach-Within : {n : ℕ} {r : Router} → Reach malloc msgsnd n r → All Within r.pl
  unfolding start
  Reach-Within h = Reach-keeps within-Kept tt h

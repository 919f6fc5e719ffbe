-- ===== src/Router/Pids.antt =====
-- A process is in the process list at most once: src/router/src/listen.c.
use udaq.Base.{
  ℕ, ◌+◌, ◌≤◌, ◌<◌, ◌≡◌, refl, ap, ◌∙◌, Bool, false, ◌&&◌, Option, none, some, List, [], ◌∷◌, ◌++◌,
  arith, ltb, ◌==◌, if◌then◌else◌, ℤ, pos, negsuc, inc, inl, inr, Option-cases, if-either,
}
use udaq.Router.Shm.{Shm, round_up}
use udaq.Router.Protocol.{Cmd, is_writer}
use udaq.Router.Outbox.{Reply}
use udaq.Router.State.{Proc, Router, start, find_proc, at_proc, flag_or_head}
use udaq.Router.Holds.{pl_remove_buf, pl_add_buf, find_used, count_in}
use udaq.Router.Buffers.{
  clip, drop_proc, get_shm, hand_out, pl_hold, get_buf, new_pl, send_msg, send_one, offer,
  send_each, count_sent, finish, send_buf, after_send, release_found, release_buf,
}
use udaq.Router.Messages.{is_known}
use udaq.Router.Listen.{Step, serve, arrive, take, close, Reach}
use udaq.Router.References.Release.{drop_ref-pl}
use udaq.Router.References.Grant.{Taken, get_shm-Taken}
use udaq.Router.References.Remove.{pl_remove_buf-pid}
use udaq.Router.Keeps.{Kept, Reach-keeps}

-- How often a pid is in the list.
abbrev pub tally : ℕ → List Proc → ℕ
tally k [] = 0
tally k (p ∷ ps) = (if p.pid == k then 1 else 0) + tally k ps

abbrev pub AreDistinct : Router → Type 0
AreDistinct r = (k : ℕ) → tally k r.pl ≤ 1

at_proc-tally :
    (k : ℕ) (f : Proc → Proc) (pid : ℕ) (pl : List Proc)
    → ((p : Proc) → (f p).pid ≡ p.pid)
    → tally k (at_proc f pid pl) ≡ tally k pl
unfolding at_proc
at_proc-tally k f pid [] h = refl
at_proc-tally k f pid (p ∷ ps) h = ground (arith, h p, at_proc-tally k f pid ps h)

drop_proc-tally : (k pid : ℕ) (pl : List Proc) → tally k (drop_proc pid pl) ≤ tally k pl
unfolding drop_proc
drop_proc-tally k pid [] = omega arith
drop_proc-tally k pid (p ∷ ps) = ground (arith, drop_proc-tally k pid ps)

tally-append : (k : ℕ) (ps qs : List Proc) → tally k (ps ++ qs) ≡ tally k ps + tally k qs
tally-append k [] qs = omega arith
tally-append k (p ∷ ps) qs = omega (arith, tally-append k ps qs)

tally-unknown : (k : ℕ) (pl : List Proc) → is_known (find_proc k pl) ≡ false → tally k pl ≡ 0
unfolding find_proc
tally-unknown k [] h = refl
tally-unknown k (p ∷ ps) h = ground (arith, h, tally-unknown k ps)

pl_add_buf-pid : (b : ℕ) (p : Proc) → (pl_add_buf b p).pid ≡ p.pid
unfolding pl_add_buf
pl_add_buf-pid b p = refl

module _ (malloc : ℕ → Bool) (msgsnd : ℕ → Reply) where
  send_each-tally :
      (k : ℕ) (s : Shm) (size : ℕ) (ps : List Proc) (r : Router)
      → tally k (send_each malloc msgsnd s size ps r).2 ≡ tally k ps
  unfolding send_each offer send_one
  send_each-tally k s size [] r = refl
  send_each-tally k s size (p ∷ ps) r = ground (
    arith,
    pl_add_buf-pid s.buf p,
    send_each-tally k s size ps r,
    send_each-tally k (record s { count = s.count + 1 }) size ps
        (record (send_msg malloc msgsnd p.pid Cmd.buffer s.buf size 0
          (record r { allocs = r.allocs + 1 })) { msg_count = inc r.msg_count }),
  )

  send_buf-tally :
      (k : ℕ) (s : Shm) (size : ℕ) (r : Router)
      → tally k (send_buf malloc msgsnd s size r).2.pl ≡ tally k r.pl
  unfolding send_buf finish count_sent
  send_buf-tally k s size r = ground (arith, send_each-tally k s (clip size s) r.pl r)

  after_send-tally :
      (k : ℕ) (before after : List Shm) (t : ℤ × Shm × Router)
      → tally k (after_send before after t).1.pl ≡ tally k t.2.pl
  unfolding after_send
  after_send-tally k before after (pos n, s, r) = ap (tally k) (drop_ref-pl before s after r)
  after_send-tally k before after (negsuc n, s, r) = refl

  release_buf-tally :
      (k pid buf size : ℕ) (r : Router)
      → tally k (release_buf malloc msgsnd pid buf size r).1.pl ≡ tally k r.pl
  unfolding release_buf release_found
  release_buf-tally k pid buf size r =
      let r' : Router = record r { pl = at_proc (pl_remove_buf buf) pid r.pl } in
      let same = at_proc-tally k (pl_remove_buf buf) pid r.pl (pl_remove_buf-pid buf) in
      elim (Option-cases (find_used buf r.used)) [
        | inl e ↦ rw (e, release_buf) same
        | inr ((before, s, after), e) ↦
            let q : Router = record r' { stats = count_in size r'.stats } in
            rw (e, release_buf)
              (if-either (λ (t : ℤ × Router). tally k t.1.pl ≡ tally k r.pl)
                (is_writer (flag_or_head (find_proc pid r.pl)) && ltb 0 size)
                (after_send-tally k before after _ ∙ send_buf-tally k s size q ∙ same)
                (ap (tally k) (drop_ref-pl before s after r') ∙ same))
      ]

module _ (malloc : ℕ → Bool) where
  hand_out-tally :
      (k pid : ℕ) (r : Router) (t : Option Shm × Router)
      → Taken r t
      → tally k (hand_out malloc pid t).2.pl ≡ tally k r.pl
  unfolding hand_out pl_hold
  hand_out-tally k pid r (none, r') t = ap (tally k) t.0
  hand_out-tally k pid r (some n, r') t =
      if-either (λ (u : ℤ × Option Shm × Router). tally k u.2.pl ≡ tally k r.pl) (malloc r'.allocs)
        (at_proc-tally k (pl_add_buf n.buf) pid r'.pl (pl_add_buf-pid n.buf) ∙ ap (tally k) t.0)
        (ap (tally k) t.0)

  get_buf-tally :
      (k pid size : ℕ) (r : Router) → tally k (get_buf malloc pid size r).2.pl ≡ tally k r.pl
  unfolding get_buf
  get_buf-tally k pid size r = ground (
    arith,
    hand_out-tally k pid r (get_shm malloc (round_up size) r)
        (get_shm-Taken malloc (round_up size) r),
  )

  new_pl-AreDistinct :
      (pid flag : ℕ) (r : Router)
      → is_known (find_proc pid r.pl) ≡ false
      → AreDistinct r
      → AreDistinct (new_pl malloc pid flag r).1
  unfolding new_pl
  new_pl-AreDistinct pid flag r h v k =
      if-either (λ (t : Bool × Router). tally k t.1.pl ≤ 1) (malloc r.allocs)
        (ground (
          arith,
          v k,
          tally-append k r.pl
              (record { pid = pid; flag = flag; cnt = 0; cnt_total = 0; bl = [] } ∷ []),
          tally-unknown pid r.pl h,
        ))
        (v k)

module _ (malloc : ℕ → Bool) (msgsnd : ℕ → Reply) where
  AreDistinct-Kept : Kept malloc msgsnd AreDistinct
  AreDistinct-Kept = record {
    on_release = λ pid buf size r v k. rw (release_buf-tally malloc msgsnd k pid buf size r) (v k);
    on_grant = λ pid size r v k. rw (get_buf-tally malloc k pid size r) (v k);
    on_join = new_pl-AreDistinct malloc;
    on_drop = λ pid r e v k. omega (arith, v k, drop_proc-tally k pid r.pl);
    on_queues = λ o i x w n e r v. v;
  }

  -- `new_pl` takes an `int`: the pid of a message goes into the list as it is where it fits one.
  abbrev pub HasIntPid : {r r' : Router} → Step malloc msgsnd r r' → Type 0
  HasIntPid (serve r go) = Unit {0}
  HasIntPid (arrive m r) = m.pid < 2147483648
  HasIntPid (take pid m rest r e) = Unit {0}
  HasIntPid (close r) = Unit {0}

  -- The states that a router with `n` bytes of shared memory reaches, whatever the clients send with such pids.
  pub data IntReach (n : ℕ) : Router → Type 0 where
    begin : IntReach n (start n)
    later :
        {r r' : Router} → IntReach n r → (s : Step malloc msgsnd r r') → HasIntPid s → IntReach n r'

  IntReach-Reach : {n : ℕ} {r : Router} → IntReach n r → Reach malloc msgsnd n r
  IntReach-Reach begin = Reach.begin
  IntReach-Reach (later h s p) = Reach.later (IntReach-Reach h) s

  -- Whatever the clients send with pids that fit an `int`, in every state no process is in the process list twice: the
  -- first process that a search for a pid finds is the only one.
  pub IntReach-AreDistinct : {n : ℕ} {r : Router} → IntReach n r → AreDistinct r
  unfolding start
  IntReach-AreDistinct h = Reach-keeps AreDistinct-Kept (λ k. ground arith) (IntReach-Reach h)

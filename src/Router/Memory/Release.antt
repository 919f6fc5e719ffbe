-- ===== src/Router/Memory/Release.antt =====
-- A release of a buffer, and of all buffers of a process, keeps the memory divided.
use udaq.Base.{
  ℕ, zero, suc, ◌+◌, ◌-◌, ◌≡◌, refl, Bool, ◌&&◌, some, List, [], ◌∷◌, ◌++◌, arith, ltb, leb, ◌==◌,
  ℤ, pos, negsuc, inc, length, inl, inr, Bool-cases, Option-cases, List-cases,
}
use mathlib.Core.Path.{subst}
use udaq.Router.Shm.{Shm}
use udaq.Router.Protocol.{Cmd, is_writer}
use udaq.Router.Outbox.{Reply}
use udaq.Router.State.{Proc, Router, find_proc}
use udaq.Router.Holds.{no_size, find_used, drop_ref, count_in}
use udaq.Router.Buffers.{
  clip, holds_of, send_msg, send_one, offer, send_each, count_sent, finish, send_buf, after_send,
  release_found, release_buf, release_all, pl_release_buf_all, remove_pl,
}
use udaq.Router.Memory.{MemOk, MemOk-free, MemOk-count, RouterOk}

-- The memory is the same in two states.
abbrev pub Same : Router → Router → Type 0
Same r r' = (r'.used ≡ r.used) × (r'.free ≡ r.free) × (r'.shmsize ≡ r.shmsize)

abbrev pub SamePlace : Shm → Shm → Type 0
SamePlace s s' = (s'.buf ≡ s.buf) × (s'.size ≡ s.size)

pub find_used-split :
    (buf : ℕ) (ss before after : List Shm) (s : Shm)
    → find_used buf ss ≡ some (before, s, after)
    → (ss ≡ before ++ s ∷ after) × (s.buf ≡ buf)
unfolding find_used
find_used-split buf [] before after s e = cc
find_used-split buf (t ∷ ss) before after s e = elim (Bool-cases (t.buf == buf)) [
  | inl h ↦ ground arith
  | inr h ↦ elim (Option-cases (find_used buf ss)) [
    | inl g ↦ ground arith
    | inr ((b, u, a), g) ↦ ground (arith, find_used-split buf ss b a u g)
  ]
]

drop_ref-RouterOk :
    (before : List Shm) (s s' : Shm) (after : List Shm) (r : Router)
    → SamePlace s s'
    → MemOk r.shmsize (before ++ s ∷ after) r.free
    → RouterOk (drop_ref before s' after r).1
unfolding drop_ref
drop_ref-RouterOk before s s' after r p v = elim (Bool-cases (leb s'.count 1)) [
  | inl h ↦ rw h (
      MemOk-free r.shmsize before s' after r.free 0
        (MemOk-count r.shmsize before s s' after r.free p.0 p.1 v))
  | inr h ↦
      rw h
        (MemOk-count r.shmsize before s (record s' { count = s'.count - 1 }) after r.free p.0 p.1 v)
]

module _ (malloc : ℕ → Bool) (msgsnd : ℕ → Reply) where
  pub send_each-Same :
      (s : Shm) (size : ℕ) (ps : List Proc) (r : Router)
      → SamePlace s (send_each malloc msgsnd s size ps r).1
        × Same r (send_each malloc msgsnd s size ps r).3
  unfolding send_each offer send_one send_msg
  send_each-Same s size [] r = ((refl, refl), (refl, refl, refl))
  send_each-Same s size (p ∷ ps) r = ground (
    arith,
    send_each-Same s size ps r,
    send_each-Same (record s { count = s.count + 1 }) size ps
        (record (send_msg malloc msgsnd p.pid Cmd.buffer s.buf size 0
          (record r { allocs = r.allocs + 1 })) { msg_count = inc r.msg_count }),
  )

  pub send_buf-Same :
      (s : Shm) (size : ℕ) (r : Router)
      → SamePlace s (send_buf malloc msgsnd s size r).1 × Same r (send_buf malloc msgsnd s size r).2
  unfolding send_buf finish count_sent
  send_buf-Same s size r = ground (arith, send_each-Same s (clip size s) r.pl r)

  after_send-RouterOk :
      (before : List Shm) (s : Shm) (after : List Shm) (r : Router) (t : ℤ × Shm × Router)
      → SamePlace s t.1
      → Same r t.2
      → MemOk r.shmsize (before ++ s ∷ after) r.free
      → RouterOk (after_send before after t).1
  unfolding after_send
  after_send-RouterOk before s after r (pos n, s', r') p e v =
      drop_ref-RouterOk before s s' after r' p (rw (e.1, e.2) v)
  after_send-RouterOk before s after r (negsuc n, s', r') p e v =
      rw (e.1, e.2) (MemOk-count r.shmsize before s s' after r.free p.0 p.1 v)

  release_found-RouterOk :
      (flag size : ℕ) (before : List Shm) (s : Shm) (after : List Shm) (r : Router)
      → MemOk r.shmsize (before ++ s ∷ after) r.free
      → RouterOk (release_found malloc msgsnd flag size before s after r).1
  unfolding release_found
  release_found-RouterOk flag size before s after r v =
      elim (Bool-cases (is_writer flag && ltb 0 size)) [
        | inl h ↦
            let r' : Router = record r { stats = count_in size r.stats } in
            let f = send_buf-Same s size r' in
            rw h
              (after_send-RouterOk before s after r' (send_buf malloc msgsnd s size r') f.0 f.1 v)
        | inr h ↦ rw h (drop_ref-RouterOk before s s after r (refl, refl) v)
      ]

  -- A release keeps the memory divided, whoever releases whatever.
  pub release_buf-RouterOk :
      (pid buf size : ℕ) (r : Router)
      → RouterOk r
      → RouterOk (release_buf malloc msgsnd pid buf size r).1
  unfolding release_buf
  release_buf-RouterOk pid buf size r v = elim (Option-cases (find_used buf r.used)) [
    | inl e ↦ rw (e, release_buf) v
    | inr ((before, s, after), e) ↦
        rw (e, release_buf)
          (release_found-RouterOk _ size before s after _ (
            subst (λ u. MemOk r.shmsize u r.free) (find_used-split buf r.used before after s e).0
              v))
  ]

  release_all-RouterOk :
      (fuel pid : ℕ) (r : Router) → RouterOk r → RouterOk (release_all malloc msgsnd fuel pid r)
  unfolding release_all
  release_all-RouterOk zero pid r v = v
  release_all-RouterOk (suc fuel) pid r v = elim (List-cases (holds_of (find_proc pid r.pl))) [
    | inl e ↦ rw (e, release_all) v
    | inr (b, bs, e) ↦
        rw (e, release_all)
          (release_all-RouterOk fuel pid _ (release_buf-RouterOk pid b no_size r v))
  ]

  pl_release_buf_all-RouterOk :
      (pid : ℕ) (r : Router) → RouterOk r → RouterOk (pl_release_buf_all malloc msgsnd pid r).1
  unfolding pl_release_buf_all
  pl_release_buf_all-RouterOk pid r v = elim (Option-cases (find_proc pid r.pl)) [
    | inl e ↦ rw (e, pl_release_buf_all) v
    | inr (p, e) ↦ rw (e, pl_release_buf_all) (release_all-RouterOk (length p.bl) pid r v)
  ]

  pub remove_pl-RouterOk :
      (pid : ℕ) (r : Router) → RouterOk r → RouterOk (remove_pl malloc msgsnd pid r).1
  unfolding remove_pl
  remove_pl-RouterOk pid r v =
      let r' : Router = (pl_release_buf_all malloc msgsnd pid r).1 in
      let v' : RouterOk r' = pl_release_buf_all-RouterOk pid r v in
      elim (Option-cases (find_proc pid r'.pl)) [
        | inl e ↦ rw (e, remove_pl) v'
        | inr (p, e) ↦ rw (e, remove_pl) v'
      ]

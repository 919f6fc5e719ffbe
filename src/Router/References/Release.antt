-- ===== src/Router/References/Release.antt =====
-- A process that holds a buffer can release it: no buffer that another one holds is freed.
use udaq.Base.{
  ℕ, ◌+◌, ◌-◌, ◌≤◌, ◌<◌, ◌≡◌, Bool, ◌&&◌, List, [], ◌∷◌, ◌++◌, arith, ltb, leb, ◌==◌, if◌then◌else◌,
  ℤ, pos, negsuc, inc, inl, inr, Option-cases, if-either,
}
use mathlib.Core.Path.{subst}
use udaq.Router.Shm.{Shm}
use udaq.Router.Protocol.{Cmd, is_writer}
use udaq.Router.Outbox.{Reply}
use udaq.Router.State.{Proc, Router}
use udaq.Router.Holds.{pl_add_buf, find_used, drop_ref, count_in}
use udaq.Router.Buffers.{
  clip, send_msg, send_one, offer, send_each, count_sent, finish, send_buf, after_send,
  release_found, release_buf,
}
use udaq.Router.Memory.Release.{find_used-split, send_each-Same, send_buf-Same}
use udaq.Router.References.{
  hit, holders, refs, Safe, count-append, refs-append, held_by, remove-holders,
}

-- The references of one node at a position.
abbrev pub part : ℕ → Shm → ℕ
part b s = if b == s.buf then s.count else 0

pub refs-middle :
    (b : ℕ) (before : List Shm) (s : Shm) (after : List Shm)
    → refs b (before ++ s ∷ after) ≡ refs b before + (part b s + refs b after)
refs-middle b before s after = refs-append b before (s ∷ after)

pub drop_ref-refs :
    (b : ℕ) (before : List Shm) (s : Shm) (after : List Shm) (r : Router)
    → refs b (drop_ref before s after r).1.used + (if leb 1 s.count then hit b s.buf else 0)
      ≡ refs b (before ++ s ∷ after)
unfolding drop_ref
drop_ref-refs b before s after r = ground (
  arith,
  refs-middle b before s after,
  refs-append b before after,
  refs-middle b before (record s { count = s.count - 1 }) after,
)

pub drop_ref-pl :
    (before : List Shm) (s : Shm) (after : List Shm) (r : Router)
    → (drop_ref before s after r).1.pl ≡ r.pl
unfolding drop_ref
drop_ref-pl before s after r = ground arith

module _ (malloc : ℕ → Bool) (msgsnd : ℕ → Reply) where
  -- Every reader that gets the buffer is counted.
  pub send_each-holders :
      (b : ℕ) (s : Shm) (size : ℕ) (ps : List Proc) (r : Router)
      → holders b (send_each malloc msgsnd s size ps r).2 + part b s
        ≡ holders b ps + part b (send_each malloc msgsnd s size ps r).1
  unfolding send_each offer send_one pl_add_buf
  send_each-holders b s size [] r = omega arith
  send_each-holders b s size (p ∷ ps) r = ground (
    arith,
    count-append b p.bl (s.buf ∷ []),
    send_each-holders b s size ps r,
    (send_each-Same malloc msgsnd (record s { count = s.count + 1 }) size ps
        (record (send_msg malloc msgsnd p.pid Cmd.buffer s.buf size 0
          (record r { allocs = r.allocs + 1 })) { msg_count = inc r.msg_count })).0,
    send_each-holders b (record s { count = s.count + 1 }) size ps
        (record (send_msg malloc msgsnd p.pid Cmd.buffer s.buf size 0
          (record r { allocs = r.allocs + 1 })) { msg_count = inc r.msg_count }),
  )

  pub send_buf-holders :
      (b : ℕ) (s : Shm) (size : ℕ) (r : Router)
      → holders b (send_buf malloc msgsnd s size r).2.pl + part b s
        ≡ holders b r.pl + part b (send_buf malloc msgsnd s size r).1
  unfolding send_buf finish count_sent
  send_buf-holders b s size r = ground (arith, send_each-holders b s (clip size s) r.pl r)

  after_send-Safe :
      (before : List Shm) (s : Shm) (after : List Shm) (r : Router) (t : ℤ × Shm × Router)
      → t.1.buf ≡ s.buf
      → ((b : ℕ) → holders b t.2.pl + part b s ≡ holders b r.pl + part b t.1)
      → ((b : ℕ) → holders b r.pl + hit b s.buf ≤ refs b (before ++ s ∷ after))
      → Safe (after_send before after t).1
  unfolding after_send
  after_send-Safe before s after r (pos n, s', r') e h v b = ground (
    arith,
    h b,
    v b,
    refs-middle b before s after,
    refs-middle b before s' after,
    drop_ref-refs b before s' after r',
    drop_ref-pl before s' after r',
  )
  after_send-Safe before s after r (negsuc n, s', r') e h v b =
      ground (arith, h b, v b, refs-middle b before s after, refs-middle b before s' after)

  release_found-Safe :
      (flag size : ℕ) (before : List Shm) (s : Shm) (after : List Shm) (r : Router)
      → ((b : ℕ) → holders b r.pl + hit b s.buf ≤ refs b (before ++ s ∷ after))
      → Safe (release_found malloc msgsnd flag size before s after r).1
  unfolding release_found
  release_found-Safe flag size before s after r v =
      let r' : Router = record r { stats = count_in size r.stats } in
      if-either (λ (t : ℤ × Router). Safe t.1) (is_writer flag && ltb 0 size)
        (after_send-Safe before s after r (send_buf malloc msgsnd s size r')
          (send_buf-Same malloc msgsnd s size r').0.0 (λ b. send_buf-holders b s size r') v)
        (λ b. ground (arith, v b, drop_ref-refs b before s after r, drop_ref-pl before s after r))

  -- Where every held buffer is in use, a process that holds the buffer releases it: every other
  -- holder keeps it, and so does every reader to which a writer's buffer goes on the way, also where
  -- memory runs out.
  pub release_buf-Safe :
      (pid buf size : ℕ) (r : Router)
      → 0 < held_by pid buf r.pl
      → Safe r
      → Safe (release_buf malloc msgsnd pid buf size r).1
  unfolding release_buf
  release_buf-Safe pid buf size r h v = elim (Option-cases (find_used buf r.used)) [
    | inl e ↦ rw (e, release_buf) (λ b. ground (arith, v b, remove-holders b buf pid r.pl))
    | inr ((before, s, after), e) ↦
        let (split, place) = find_used-split buf r.used before after s e in
        rw (e, release_buf)
          (release_found-Safe _ size before s after _ (λ b. ground (
            arith,
            subst (λ u. holders b r.pl ≤ refs b u) split (v b),
            place,
            remove-holders b buf pid r.pl,
          )))
  ]

-- ===== src/Router/References/Exact/Messages.antt =====
-- The counts stay exact over every message, with memory.
use udaq.Base.{
  ℕ, ◌+◌, ◌≤◌, ◌<◌, ◌≡◌, refl, ap, ◌∙◌, Bool, true, not, ◌&&◌, Option, none, some, List, [], ◌∷◌,
  ◌++◌, arith, ltb, leb, ℤ, pos, negsuc, inl, inr, Bool-cases, Option-cases, if-either, All,
  All-append, All-split,
}
use mathlib.Core.Path.{subst}
use udaq.Router.Shm.{Shm, Walk, no_fit, whole, cut, round_up}
use udaq.Router.Protocol.{Msg, is_writer}
use udaq.Router.Outbox.{Reply}
use udaq.Router.State.{Proc, Router, find_proc}
use udaq.Router.Holds.{find_used, bump_last, check_max_buf, count_in, max_write_buf}
use udaq.Router.Buffers.{
  place, get_shm, hand_out, pl_hold, get_buf, new_pl, send_buf, after_send, release_found,
  release_buf,
}
use udaq.Router.Messages.{message}
use udaq.Router.Memory.Release.{find_used-split, send_buf-Same}
use udaq.Router.Memory.Grant.{bump_last-append}
use udaq.Router.Delivery.{send_buf-delivers}
use udaq.Router.References.{
  count, hit, holders, refs, refs-append, holders-append, held_by, held_by-le, remove-holders,
}
use udaq.Router.References.Release.{part, refs-middle, send_buf-holders}
use udaq.Router.References.Remove.{drop_proc-holders}
use udaq.Router.References.Purge.{Keeps}
use udaq.Router.References.Protocol.{HeldKept, message-keeps}
use udaq.Router.References.Exact.{
  IsLive, IsIdle, Exact, find_used-none, add-held, WalkIdle, walk-idle, drop_ref-Exact,
}

module _ (malloc : ℕ → Bool) (msgsnd : ℕ → Reply) (memory : (n : ℕ) → malloc n ≡ true) where
  -- With memory `send_buf` returns no error, and takes no reference away.
  SentOk : Shm → ℤ × Shm × Router → Type 0
  SentOk s (pos n, s', r') = s.count ≤ s'.count
  SentOk s (negsuc n, s', r') = ⊥

  send_buf-SentOk : (s : Shm) (size : ℕ) (r : Router) → SentOk s (send_buf malloc msgsnd s size r)
  unfolding SentOk
  send_buf-SentOk s size r = elim (Bool-cases (check_max_buf r.pl)) [
    | inl e ↦ unfold send_buf in rw (e, send_buf) (omega arith)
    | inr e ↦
        let (code, k, pl, l) = send_buf-delivers malloc msgsnd memory s size r e in
        from_code (send_buf malloc msgsnd s size r) code (omega (arith, k))
  ]
    where
      from_code : (t : ℤ × Shm × Router) → t.0 ≡ pos 0 → s.count ≤ t.1.count → SentOk s t
      from_code (pos n, s', r') c k = k
      from_code (negsuc n, s', r') c k = cc

  after_send-Exact :
      (before : List Shm) (s : Shm) (after : List Shm) (r : Router) (t : ℤ × Shm × Router)
      → t.1.buf ≡ s.buf
      → t.2.free ≡ r.free
      → ((b : ℕ) → holders b t.2.pl + part b s ≡ holders b r.pl + part b t.1)
      → SentOk s t
      → ((b : ℕ) → holders b r.pl + hit b s.buf ≡ refs b (before ++ s ∷ after))
      → All IsLive (before ++ s ∷ after)
      → All IsIdle r.free
      → Exact (after_send before after t).1
  unfolding after_send SentOk
  after_send-Exact before s after r (negsuc n, s', r') e f h k v l w = absurd k
  after_send-Exact before s after r (pos n, s', r') e f h k v l w =
      let (l₁, l₂, l₃) = All-split IsLive before s after l in
      drop_ref-Exact before s' after r'
        (λ b. ground (arith, h b, v b, refs-middle b before s after, refs-middle b before s' after))
        (omega (arith, l₂, k)) (All-append IsLive before (s' ∷ after) l₁ (omega (arith, l₂, k), l₃))
        (rw f w)

  release_found-Exact :
      (flag size : ℕ) (before : List Shm) (s : Shm) (after : List Shm) (r : Router)
      → ((b : ℕ) → holders b r.pl + hit b s.buf ≡ refs b (before ++ s ∷ after))
      → All IsLive (before ++ s ∷ after)
      → All IsIdle r.free
      → Exact (release_found malloc msgsnd flag size before s after r).1
  unfolding release_found
  release_found-Exact flag size before s after r v l w =
      let r' : Router = record r { stats = count_in size r.stats } in
      let (place, same) = send_buf-Same malloc msgsnd s size r' in
      if-either (λ (t : ℤ × Router). Exact t.1) (is_writer flag && ltb 0 size)
        (after_send-Exact before s after r (send_buf malloc msgsnd s size r') place.0 same.1
          (λ b. send_buf-holders malloc msgsnd b s size r') (send_buf-SentOk s size r') v l w)
        (drop_ref-Exact before s after r v (All-split IsLive before s after l).1 l w)

  release_buf-Exact :
      (pid buf size : ℕ) (r : Router)
      → 0 < held_by pid buf r.pl
      → Exact r
      → Exact (release_buf malloc msgsnd pid buf size r).1
  unfolding release_buf
  release_buf-Exact pid buf size r h v = elim (Option-cases (find_used buf r.used)) [
    | inl e ↦
        absurd
          (omega (arith, h, held_by-le pid buf r.pl, v.counted buf, find_used-none buf r.used e))
    | inr ((before, s, after), e) ↦
        let (split, place) = find_used-split buf r.used before after s e in
        rw (e, release_buf)
          (release_found-Exact _ size before s after _
            (λ b. ground (
              arith,
              subst (λ u. holders b r.pl ≡ refs b u) split (v.counted b),
              place,
              remove-holders b buf pid r.pl,
            ))
            (subst (All IsLive) split v.live) v.idle)
  ]

  -- What `get_shm` does to the lists.
  TakenIdle : Router → Option Shm × Router → Type 0
  TakenIdle r (none, r') = (r'.pl ≡ r.pl) × (r'.used ≡ r.used) × All IsIdle r'.free
  TakenIdle r (some n, r') =
      (r'.pl ≡ r.pl) × (r'.used ≡ r.used ++ n ∷ []) × All IsIdle r'.free × IsIdle n

  place-TakenIdle :
      (w : Walk) (r : Router) → WalkIdle w → All IsIdle r.free → TakenIdle r (place malloc w r)
  unfolding place TakenIdle WalkIdle
  place-TakenIdle no_fit r h v = (refl, refl, v)
  place-TakenIdle (whole n rest) r h v = (refl, refl, h.1, h.0)
  place-TakenIdle (cut n rest) r h v = rw (memory r.allocs) (refl, refl, h.1, h.0)

  hand_out-Exact :
      (pid : ℕ) (r : Router) (p : Proc) (t : Option Shm × Router)
      → find_proc pid r.pl ≡ some p
      → TakenIdle r t
      → Exact r
      → Exact (hand_out malloc pid t).2
  unfolding hand_out TakenIdle pl_hold
  hand_out-Exact pid r p (none, r') e t v = record {
    counted = λ b. rw (t.0, t.1) (v.counted b);
    live = rw t.1 v.live;
    idle = t.2;
  }
  hand_out-Exact pid r p (some n, r') e t v =
      let bumped = ap bump_last t.1 ∙ bump_last-append r.used n in
      let n' : Shm = record n { count = n.count + 1 } in
      rw (memory r'.allocs) (record {
        counted = λ b.
            rw (bumped, t.0)
              (ground (
                arith,
                v.counted b,
                t.3,
                add-held b n.buf pid r.pl p e,
                refs-append b r.used (n' ∷ []),
              ));
        live = rw bumped (All-append IsLive r.used (n' ∷ []) v.live (omega arith, tt));
        idle = t.2;
      })

  get_buf-Exact : (pid size : ℕ) (r : Router) → Exact r → Exact (get_buf malloc pid size r).2
  unfolding get_buf get_shm
  get_buf-Exact pid size r v = elim (Option-cases (find_proc pid r.pl)) [
    | inl e ↦ rw (e, get_buf) v
    | inr (p, e) ↦
        rw (e, get_buf)
          (if-either Ok (not (is_writer p.flag)) v (
            if-either Ok (leb max_write_buf p.cnt) v (
              if-either Ok (ltb r.shmsize (round_up size)) v (
                hand_out-Exact pid r p _ e
                  (place-TakenIdle _ r (walk-idle (round_up (round_up size)) r.free v.idle) v.idle)
                  v))))
  ]
    where
      Ok : ℤ × Option Shm × Router → Type 0
      Ok t = Exact t.2

  new_pl-Exact : (pid flag : ℕ) (r : Router) → Exact r → Exact (new_pl malloc pid flag r).1
  unfolding new_pl
  new_pl-Exact pid flag r v = rw (memory r.allocs) (record {
    counted = λ b. omega (arith, v.counted b, holders-append b r.pl _);
    live = v.live;
    idle = v.idle;
  })

  Exact-HeldKept : HeldKept malloc msgsnd Exact
  Exact-HeldKept = record {
    on_release = release_buf-Exact;
    on_grant = get_buf-Exact;
    on_join = new_pl-Exact;
    on_drop = λ pid r e v. record {
      counted = λ b. omega (arith, v.counted b, drop_proc-holders b pid r.pl, ap (count b) e);
      live = v.live;
      idle = v.idle;
    };
    on_queues = λ o i n e r v. record { counted = v.counted; live = v.live; idle = v.idle };
  }

  -- With memory, every message of a sender that keeps to the protocol keeps the counts exact: each buffer
  -- is counted as often as it is held, a used node has a holder, and a free node has none.
  pub message-Exact :
      (m : Msg) (r : Router) → Keeps m.cmd m r → Exact r → Exact (message malloc msgsnd m r).1
  message-Exact m r k v = message-keeps Exact-HeldKept m r k v

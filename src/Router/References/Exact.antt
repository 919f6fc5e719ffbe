-- ===== src/Router/References/Exact.antt =====
-- With memory, a buffer is counted exactly as often as it is held, so it is in use just while somebody
-- holds it.
pub mod Messages
use udaq.Base.{
  ℕ, ◌+◌, ◌≤◌, ◌<◌, ◌≡◌, refl, ap, ◌∙◌, Bool, true, not, ◌&&◌, Option, none, some, List, [], ◌∷◌,
  ◌++◌, arith, ltb, leb, ◌==◌, ℤ, pos, negsuc, inl, inr, Bool-cases, Option-cases, if-either, All,
  All-append, All-split,
}
use mathlib.Core.Path.{subst}
use udaq.Router.Shm.{
  Shm, Walk, walk, no_fit, whole, cut, past, round_up, shm_free_insert, join_after,
}
use udaq.Router.Protocol.{Msg, is_writer}
use udaq.Router.Outbox.{Reply}
use udaq.Router.State.{Proc, Router, find_proc, at_proc}
use udaq.Router.Holds.{
  pl_add_buf, find_used, drop_ref, bump_last, check_max_buf, count_in, max_write_buf,
}
use udaq.Router.Buffers.{
  place, get_shm, hand_out, pl_hold, get_buf, new_pl, send_buf, after_send, release_found,
  release_buf,
}
use udaq.Router.Messages.{message}
use udaq.Router.Memory.Release.{find_used-split, send_buf-Same}
use udaq.Router.Memory.Grant.{bump_last-append}
use udaq.Router.Delivery.{send_buf-delivers}
use udaq.Router.References.{
  count, hit, holders, refs, count-append, refs-append, holders-append, held_by, held_by-le,
  remove-holders,
}
use udaq.Router.References.Release.{part, refs-middle, drop_ref-refs, drop_ref-pl, send_buf-holders}
use udaq.Router.References.Remove.{drop_proc-holders}
use udaq.Router.References.Purge.{Keeps}
use udaq.Router.References.Protocol.{HeldKept, message-keeps}

abbrev pub IsLive : Shm → Type 0
IsLive s = 0 < s.count

abbrev pub IsIdle : Shm → Type 0
IsIdle s = s.count ≡ 0

-- Each buffer counts its holders, a used node has one, and a free node has none.
pub record Exact (r : Router) : Type 0 where
  pub counted : (b : ℕ) → holders b r.pl ≡ refs b r.used
  pub live : All IsLive r.used
  pub idle : All IsIdle r.free

pub find_used-none : (b : ℕ) (ss : List Shm) → find_used b ss ≡ none → refs b ss ≡ 0
unfolding find_used
find_used-none b [] e = refl
find_used-none b (s ∷ ss) e = elim (Option-cases (find_used b ss)) [
  | inl g ↦ ground (arith, find_used-none b ss g)
  | inr (t, g) ↦ ground arith
]

add-held :
    (b buf pid : ℕ) (pl : List Proc) (p : Proc)
    → find_proc pid pl ≡ some p
    → holders b (at_proc (pl_add_buf buf) pid pl) ≡ holders b pl + hit b buf
unfolding at_proc pl_add_buf find_proc
add-held b buf pid [] p e = cc
add-held b buf pid (q ∷ ps) p e =
    ground (arith, count-append b q.bl (buf ∷ []), add-held b buf pid ps p)

join_after-IsIdle :
    (s t : Shm) (ts : List Shm) → IsIdle s → All IsIdle (t ∷ ts) → All IsIdle (join_after s t ts).1
unfolding join_after
join_after-IsIdle s t [] h v = v
join_after-IsIdle s t (u ∷ us) h v = ground arith

insert-IsIdle :
    (s : Shm) (ts : List Shm) → IsIdle s → All IsIdle ts → All IsIdle (shm_free_insert s ts).1
unfolding shm_free_insert
insert-IsIdle s [] h v = (h, tt)
insert-IsIdle s (t ∷ ts) h v = ground (arith, insert-IsIdle s ts, join_after-IsIdle s t ts)

-- The node that a walk finds is idle, and so is what it leaves.
WalkIdle : Walk → Type 0
WalkIdle no_fit = Unit {0}
WalkIdle (whole n rest) = IsIdle n × All IsIdle rest
WalkIdle (cut n rest) = IsIdle n × All IsIdle rest

past-idle : (t : Shm) (w : Walk) → IsIdle t → WalkIdle w → WalkIdle (past t w)
unfolding WalkIdle
past-idle t no_fit h v = tt
past-idle t (whole n rest) h v = (v.0, (h, v.1))
past-idle t (cut n rest) h v = (v.0, (h, v.1))

walk-idle : (size : ℕ) (ss : List Shm) → All IsIdle ss → WalkIdle (walk size ss)
unfolding walk WalkIdle
walk-idle size [] v = tt
walk-idle size (s ∷ ss) v = if-either WalkIdle (s.size == size) v (
    if-either WalkIdle (ltb size s.size) (refl, v)
      (past-idle s (walk size ss) v.0 (walk-idle size ss v.1)))

drop_ref-Exact :
    (before : List Shm) (s : Shm) (after : List Shm) (r : Router)
    → ((b : ℕ) → holders b r.pl + hit b s.buf ≡ refs b (before ++ s ∷ after))
    → IsLive s
    → All IsLive (before ++ s ∷ after)
    → All IsIdle r.free
    → Exact (drop_ref before s after r).1
unfolding drop_ref
drop_ref-Exact before s after r h p v w = record {
  counted =
      λ b. ground (arith, h b, drop_ref-refs b before s after r, drop_ref-pl before s after r);
  live = elim (Bool-cases (leb s.count 1)) [
    | inl e ↦ rw (e, drop_ref) (All-append IsLive before after placed.0 placed.2)
    | inr e ↦ rw (e, drop_ref) (All-append IsLive before _ placed.0 (ground arith, placed.2))
  ];
  idle =
      if-either (λ (t : ℤ × Router). All IsIdle t.1.free) (leb s.count 1)
        (insert-IsIdle (record s { count = 0 }) r.free refl w) w;
}
  where
    placed : All IsLive before × IsLive s × All IsLive after
    placed = All-split IsLive before s after v

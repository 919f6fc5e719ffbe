-- ===== src/Router/Faults.antt =====
-- What goes wrong when clients do not keep to the protocol, and at a disconnection.
use udaq.Base.{
  length, List, [], ◌∷◌, ◌⊎◌, ℕ, ◌+◌, ◌≡◌, ap, Bool, arith, inl, inr, Option-cases, All, All-split,
}
use mathlib.Core.Path.{subst}
use udaq.Router.Protocol.{is_writer}
use udaq.Router.Outbox.{Reply}
use udaq.Router.State.{Router, find_proc, at_proc, flag_or_head}
use udaq.Router.Holds.{no_size, pl_remove_buf, find_used}
use udaq.Router.Buffers.{release_found, release_buf}
use udaq.Router.Memory.Release.{find_used-split}
use udaq.Router.References.{holders, refs, held_by, remove-holders}
use udaq.Router.References.Release.{drop_ref-refs}
use udaq.Router.References.Remove.{release_buf-pl, and-false}
use udaq.Router.References.Exact.{Exact, IsLive, find_used-none}
use udaq.Router.Messages.{split_for, purge_que}
use udaq.Router.Protocol.{Msg}
use udaq.Router.References.Purge.{release_queued-queues}

module _ (malloc : ℕ → Bool) (msgsnd : ℕ → Reply) where
  -- A forced release takes a reference away, whoever holds it.
  forced-refs :
      (pid buf : ℕ) (r : Router)
      → All IsLive r.used
      → refs buf (release_buf malloc msgsnd pid buf no_size r).1.used + 1 ≡ refs buf r.used
        ⊎ refs buf r.used ≡ 0
  unfolding release_buf release_found
  forced-refs pid buf r v = elim (Option-cases (find_used buf r.used)) [
    | inl e ↦ inr (find_used-none buf r.used e)
    | inr ((before, s, after), e) ↦
        let (split, place) = find_used-split buf r.used before after s e in
        let live = (All-split IsLive before s after (subst (All IsLive) split v)).1 in
        inl (
          rw (e, release_buf)
            (rw (and-false (is_writer (flag_or_head (find_proc pid r.pl)))) (
              ground (
                arith,
                live,
                place,
                drop_ref-refs buf before s after
                    (record r { pl = at_proc (pl_remove_buf buf) pid r.pl }),
                ap (refs buf) split,
              ))))
  ]

  -- Where the counts are exact, a process that does not hold a buffer releases it, without data, and
  -- the only holder is another one: afterwards that one still holds the buffer, but the router counts no reference to it.
  pub release_unheld :
      (pid buf : ℕ) (r : Router)
      → Exact r
      → holders buf r.pl ≡ 1
      → held_by pid buf r.pl ≡ 0
      → let r' = (release_buf malloc msgsnd pid buf no_size r).1 in
        (holders buf r'.pl ≡ 1) × (refs buf r'.used ≡ 0)
  release_unheld pid buf r v h k =
      let pl = ap (holders buf) (release_buf-pl malloc msgsnd pid buf r) in
      let kept = remove-holders buf buf pid r.pl in
      (
        ground (arith, h, k, pl, kept),
        ground (arith, h, v.counted buf, forced-refs pid buf r v.live),
      )

  split_for-length :
      (pid : ℕ) (ms : List Msg)
      → length (split_for pid ms).1 + length (split_for pid ms).0 ≡ length ms
  unfolding split_for
  split_for-length pid [] = ground arith
  split_for-length pid (m ∷ ms) = ground (arith, split_for-length pid ms)

  -- At a disconnection the messages for the process leave the ring, but the count of the ring stays: it is
  -- too high afterwards by as many as were taken out.
  purge_que-count :
      (pid : ℕ) (r : Router)
      → let o' = (purge_que malloc msgsnd pid r).outbox in
        (o'.que_count ≡ r.outbox.que_count)
        × (length o'.que + length (split_for pid r.outbox.que).0 ≡ length r.outbox.que)
  unfolding purge_que
  purge_que-count pid r = (
    ap (λ o. o.que_count)
        (release_queued-queues malloc msgsnd pid (split_for pid r.outbox.que).0 r).0,
    split_for-length pid r.outbox.que,
  )

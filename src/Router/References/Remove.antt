-- ===== src/Router/References/Remove.antt =====
-- A process that goes gives back what it holds, and keeps the other holders' buffers in use.
use udaq.Base.{
  ℕ, zero, suc, ◌+◌, ◌≤◌, ◌≡◌, refl, ap, ◌∙◌, Bool, true, false, ◌&&◌, some, List, [], ◌∷◌, arith,
  inl, inr, Option-cases, List-cases, length,
}
use udaq.Router.Protocol.{is_writer}
use udaq.Router.Outbox.{Reply}
use udaq.Router.State.{Proc, Router, find_proc, at_proc, flag_or_head}
use udaq.Router.Holds.{no_size, remove_first, pl_remove_buf, find_used}
use udaq.Router.Buffers.{
  holds_of, drop_proc, release_found, release_buf, release_all, pl_release_buf_all,
}
use udaq.Router.References.{holders, held_by}
use udaq.Router.References.Release.{drop_ref-pl}

remove_first-head : (b : ℕ) (bs : List ℕ) → remove_first b (b ∷ bs) ≡ some bs
unfolding remove_first
remove_first-head b bs = ground arith

pub pl_remove_buf-pid : (b : ℕ) (p : Proc) → (pl_remove_buf b p).pid ≡ p.pid
unfolding pl_remove_buf
pl_remove_buf-pid b p = ground arith

pl_remove_buf-head : (b : ℕ) (bs : List ℕ) (p : Proc) → p.bl ≡ b ∷ bs → (pl_remove_buf b p).bl ≡ bs
unfolding pl_remove_buf
pl_remove_buf-head b bs p e = ground (arith, ap (remove_first b) e ∙ remove_first-head b bs)

-- The process with the pid holds one buffer less.
remove-held :
    (pid b : ℕ) (bs : List ℕ) (pl : List Proc)
    → holds_of (find_proc pid pl) ≡ b ∷ bs
    → holds_of (find_proc pid (at_proc (pl_remove_buf b) pid pl)) ≡ bs
unfolding find_proc at_proc
remove-held pid b bs [] e = cc
remove-held pid b bs (p ∷ ps) e =
    ground (arith, pl_remove_buf-head b bs p, pl_remove_buf-pid b p, remove-held pid b bs ps)

pub drop_proc-holders :
    (b pid : ℕ) (pl : List Proc) → holders b (drop_proc pid pl) + held_by pid b pl ≡ holders b pl
unfolding drop_proc find_proc
drop_proc-holders b pid [] = refl
drop_proc-holders b pid (p ∷ ps) = ground (arith, drop_proc-holders b pid ps)

pub and-false : (b : Bool) → (b && false) ≡ false
and-false true = refl
and-false false = refl

module _ (malloc : ℕ → Bool) (msgsnd : ℕ → Reply) where
  -- A forced release sends nothing.
  pub release_buf-pl :
      (pid buf : ℕ) (r : Router)
      → (release_buf malloc msgsnd pid buf no_size r).1.pl ≡ at_proc (pl_remove_buf buf) pid r.pl
  unfolding release_buf release_found
  release_buf-pl pid buf r = elim (Option-cases (find_used buf r.used)) [
    | inl e ↦ rw (e, release_buf)
    | inr ((before, s, after), e) ↦
        rw (e, release_buf)
          (rw (and-false (is_writer (flag_or_head (find_proc pid r.pl))))
            (drop_ref-pl before s after _))
  ]

  -- The loop of `pl_release_buf_all` ends with nothing left, and every other holder keeps its buffers.
  pub release_all-held :
      (fuel pid : ℕ) (r : Router)
      → length (holds_of (find_proc pid r.pl)) ≤ fuel
      → holds_of (find_proc pid (release_all malloc msgsnd fuel pid r).pl) ≡ []
  unfolding release_all
  release_all-held zero pid r h = elim (List-cases (holds_of (find_proc pid r.pl))) [
    | inl e ↦ e
    | inr (b, bs, e) ↦ absurd (omega (arith, ap length e))
  ]
  release_all-held (suc fuel) pid r h = elim (List-cases (holds_of (find_proc pid r.pl))) [
    | inl e ↦ rw (e, release_all) e
    | inr (b, bs, e) ↦
        let left =
          ap (λ pl. holds_of (find_proc pid pl)) (release_buf-pl pid b r)
          ∙ remove-held pid b bs r.pl e in
        rw (e, release_all)
          (release_all-held fuel pid _ (omega (arith, ap length left, ap length e)))
  ]

  -- After `pl_release_buf_all` the process holds nothing.
  pub pl_release_buf_all-held :
      (pid : ℕ) (r : Router)
      → holds_of (find_proc pid (pl_release_buf_all malloc msgsnd pid r).1.pl) ≡ []
  unfolding pl_release_buf_all
  pl_release_buf_all-held pid r = elim (Option-cases (find_proc pid r.pl)) [
    | inl e ↦ rw (e, pl_release_buf_all) (ap holds_of e)
    | inr (p, e) ↦
        rw (e, pl_release_buf_all)
          (release_all-held (length p.bl) pid r (omega (arith, ap (λ o. length (holds_of o)) e)))
  ]

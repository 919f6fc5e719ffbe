-- ===== src/Router/Memory/Grant.antt =====
-- A request for a buffer keeps the memory divided.
use udaq.Base.{
  ℕ, ◌+◌, ◌<◌, ◌≡◌, refl, sym, ap, ◌∙◌, Bool, Option, none, some, List, [], ◌∷◌, ◌++◌, arith, inl,
  inr, Bool-cases,
}
use mathlib.Core.Path.{subst}
use mathlib.Core.List.{append-nil}
use udaq.Router.Shm.{Shm, round_up, Walk, no_fit, whole, cut, shm_free_insert}
use udaq.Router.Shm.FreeList.{Fits, walk-Fits}
use udaq.Router.State.{Router}
use udaq.Router.Holds.{bump_last, drop_last}
use udaq.Router.Buffers.{place, get_shm, hand_out, pl_hold, get_buf}
use udaq.Router.Memory.{MemOk, MemOk-free, MemOk-count, RouterOk, MemOk-take}

pub drop_last-append : (ss : List Shm) (n : Shm) → drop_last (ss ++ n ∷ []) ≡ ss
unfolding drop_last
drop_last-append [] n = refl
drop_last-append (s ∷ []) n = refl
drop_last-append (s ∷ t ∷ ss) n = ap (◌∷◌ s) (drop_last-append (t ∷ ss) n)

pub bump_last-append :
    (ss : List Shm) (n : Shm)
    → bump_last (ss ++ n ∷ []) ≡ ss ++ record n { count = n.count + 1 } ∷ []
unfolding bump_last
bump_last-append [] n = refl
bump_last-append (s ∷ []) n = refl
bump_last-append (s ∷ t ∷ ss) n = ap (◌∷◌ s) (bump_last-append (t ∷ ss) n)

-- What `get_shm` comes to: without a node the memory is as it was, and a node is the last of the used.
abbrev pub Got : ℕ → Router → Option Shm × Router → Type 0
Got size r (none, r') = (r'.used ≡ r.used) × (r'.free ≡ r.free) × (r'.shmsize ≡ r.shmsize)
Got size r (some n, r') =
    (r'.used ≡ r.used ++ n ∷ []) × (n.size ≡ size) × (r'.shmsize ≡ r.shmsize) × RouterOk r'

round_up-pos : (size : ℕ) → 0 < size → 0 < round_up size
unfolding round_up
round_up-pos size p = omega arith

module _ (malloc : ℕ → Bool) where
  place-Got :
      (size : ℕ) (r : Router) (w : Walk)
      → 0 < size
      → RouterOk r
      → Fits size 0 r.shmsize r.free w
      → Got size r (place malloc w r)
  unfolding place
  place-Got size r no_fit p v f = (refl, refl, refl)
  place-Got size r (whole n rest) p v f = (
    refl,
    f.0,
    refl,
    MemOk-take r.shmsize r.used n r.free rest v (omega (arith, f.0)) (omega (arith, f.0, f.2)) f.3
        f.4,
  )
  place-Got size r (cut n rest) p v f = elim (Bool-cases (malloc r.allocs)) [
    | inl e ↦ rw e (
      refl,
      f.0,
      refl,
      MemOk-take r.shmsize r.used n r.free rest v (omega (arith, f.0)) (omega (arith, f.0, f.2)) f.3
          f.4,
    )
    | inr e ↦ rw e (refl, refl, refl)
  ]

  pub get_shm-Got :
      (size : ℕ) (r : Router)
      → 0 < size
      → RouterOk r
      → Got (round_up size) r (get_shm malloc size r)
  unfolding get_shm
  get_shm-Got size r p v =
      place-Got (round_up size) r _ (round_up-pos size p) v
        (walk-Fits (round_up size) 0 r.shmsize r.free (round_up-pos size p) v.sorted)

  pl_hold-RouterOk :
      (pid : ℕ) (used : List Shm) (n : Shm) (r : Router)
      → r.used ≡ used ++ n ∷ []
      → RouterOk r
      → RouterOk (pl_hold malloc pid n r).2
  unfolding pl_hold
  pl_hold-RouterOk pid used n r g v = elim (Bool-cases (malloc r.allocs)) [
    | inl e ↦
        rw (e, pl_hold)
          (subst (λ u. MemOk r.shmsize u r.free) (sym bumped)
            (MemOk-count r.shmsize used n _ [] r.free refl refl v'))
    | inr e ↦
        rw (e, pl_hold)
          (subst
            (λ u. MemOk r.shmsize u (shm_free_insert (record n { count = n.count + 1 }) r.free).1)
            (sym dropped) (MemOk-free r.shmsize used n [] r.free (n.count + 1) v'))
  ]
    where
      v' : MemOk r.shmsize (used ++ n ∷ []) r.free
      v' = subst (λ u. MemOk r.shmsize u r.free) g v

      bumped : bump_last r.used ≡ used ++ record n { count = n.count + 1 } ∷ []
      bumped = ap bump_last g ∙ bump_last-append used n

      dropped : drop_last (bump_last r.used) ≡ used ++ []
      dropped = ap drop_last bumped ∙ drop_last-append used _ ∙ sym (append-nil used)

  hand_out-RouterOk :
      (pid size : ℕ) (r : Router) (t : Option Shm × Router)
      → RouterOk r
      → Got size r t
      → RouterOk (hand_out malloc pid t).2
  unfolding hand_out
  hand_out-RouterOk pid size r (none, r') v g = rw (g.0, g.1, g.2) v
  hand_out-RouterOk pid size r (some n, r') v g = pl_hold-RouterOk pid r.used n r' g.0 g.3

  -- A request for at least a byte keeps the memory divided, whether or not it is met.
  pub get_buf-RouterOk :
      (pid size : ℕ) (r : Router) → 0 < size → RouterOk r → RouterOk (get_buf malloc pid size r).2
  unfolding get_buf
  get_buf-RouterOk pid size r p v =
      let q = round_up-pos size p in
      ground (
        arith,
        hand_out-RouterOk pid (round_up (round_up size)) r (get_shm malloc (round_up size) r) v
            (get_shm-Got (round_up size) r q v),
      )

-- ===== src/Router/References/Grant.antt =====
-- A buffer that is handed out, and a process that comes, keep every held buffer in use.
use udaq.Base.{
  ℕ, ◌+◌, ◌≡◌, refl, ap, ◌∙◌, Bool, not, Option, none, some, [], ◌∷◌, ◌++◌, arith, ltb, leb, ℤ, pos,
  negsuc, inl, inr, Option-cases, if-either,
}
use udaq.Router.Shm.{Shm, round_up, Walk, walk, no_fit, whole, cut}
use udaq.Router.Protocol.{is_writer}
use udaq.Router.State.{Router, find_proc}
use udaq.Router.Holds.{max_write_buf, bump_last, drop_last}
use udaq.Router.Buffers.{place, get_shm, hand_out, pl_hold, get_buf, new_pl}
use udaq.Router.Memory.Grant.{bump_last-append, drop_last-append}
use udaq.Router.References.{Safe, holders-append, refs-append, add-holders}

-- What `get_shm` does to the processes and the used list.
abbrev pub Taken : Router → Option Shm × Router → Type 0
Taken r (none, r') = (r'.pl ≡ r.pl) × (r'.used ≡ r.used)
Taken r (some n, r') = (r'.pl ≡ r.pl) × (r'.used ≡ r.used ++ n ∷ [])

module _ (malloc : ℕ → Bool) where
  place-Taken : (w : Walk) (r : Router) → Taken r (place malloc w r)
  unfolding place
  place-Taken no_fit r = (refl, refl)
  place-Taken (whole n rest) r = (refl, refl)
  place-Taken (cut n rest) r = if-either (Taken r) (malloc r.allocs) (refl, refl) (refl, refl)

  pub get_shm-Taken : (size : ℕ) (r : Router) → Taken r (get_shm malloc size r)
  unfolding get_shm
  get_shm-Taken size r = place-Taken (walk (round_up size) r.free) r

  pl_hold-Safe :
      (pid : ℕ) (n : Shm) (r r' : Router)
      → Taken r (some n, r')
      → Safe r
      → Safe (pl_hold malloc pid n r').2
  unfolding pl_hold
  pl_hold-Safe pid n r r' t v =
      let bumped = ap bump_last t.1 ∙ bump_last-append r.used n in
      let dropped = ap drop_last bumped ∙ drop_last-append r.used _ in
      if-either (λ (u : ℤ × Option Shm × Router). Safe u.2) (malloc r'.allocs)
        (λ b.
          rw (bumped, t.0)
            (ground (
              arith,
              v b,
              add-holders b n.buf pid r.pl,
              refs-append b r.used (record n { count = n.count + 1 } ∷ []),
            )))
        (λ b. rw (dropped, t.0) (v b))

  hand_out-Safe :
      (pid : ℕ) (r : Router) (t : Option Shm × Router)
      → Taken r t
      → Safe r
      → Safe (hand_out malloc pid t).2
  unfolding hand_out
  hand_out-Safe pid r (none, r') t v = λ b. rw (t.0, t.1) (v b)
  hand_out-Safe pid r (some n, r') t v = pl_hold-Safe pid n r r' t v

  -- What holds of each way in which `get_buf` returns holds of its result.
  get_buf_cases {ℓ} :
      (P : ℤ × Option Shm × Router → Type ℓ) (pid size : ℕ) (r : Router)
      → P (negsuc 1, none, r)
      → P (negsuc 0, none, r)
      → P (pos 2, none, r)
      → P (hand_out malloc pid (get_shm malloc (round_up size) r))
      → P (get_buf malloc pid size r)
  unfolding get_buf
  get_buf_cases P pid size r unknown refused later taken =
      elim (Option-cases (find_proc pid r.pl)) [
        | inl e ↦ rw (e, get_buf) unknown
        | inr (p, e) ↦
            rw (e, get_buf)
              (if-either P (not (is_writer p.flag)) refused (
                if-either P (leb max_write_buf p.cnt) later
                  (if-either P (ltb r.shmsize (round_up size)) refused taken)))
      ]

  -- A request for a buffer, met or not, keeps every buffer that is held in use.
  pub get_buf-Safe : (pid size : ℕ) (r : Router) → Safe r → Safe (get_buf malloc pid size r).2
  get_buf-Safe pid size r v =
      get_buf_cases (λ (t : ℤ × Option Shm × Router). Safe t.2) pid size r v v v
        (hand_out-Safe pid r _ (get_shm-Taken (round_up size) r) v)

  pub new_pl-Safe : (pid flag : ℕ) (r : Router) → Safe r → Safe (new_pl malloc pid flag r).1
  unfolding new_pl
  new_pl-Safe pid flag r v =
      if-either (λ (t : Bool × Router). Safe t.1) (malloc r.allocs)
        (λ b. omega (arith, v b, holders-append b r.pl _)) v

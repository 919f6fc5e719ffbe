-- ===== src/Format/Regions/Accepts.antt =====
-- Which words check_rgns of src/router/tools/check_format_lib.c takes without an error.
use udaq.Base.{
  ℕ, zero, suc, ◌+◌, ◌≤◌, ◌<◌, ◌≡◌, refl, sym, ◌∙◌, ◌⊎◌, ◌↔◌, inl, inr, List, [], ◌∷◌, length,
  length-append, All, arith, ◌==◌, ltb, false, Bool-cases,
}
use udaq.Format.{Memory, words}
use udaq.Format.State.{Layout, Checker}
use udaq.Format.Encode.{
  Region, IsRegion, Holds, Holds-at, Holds-join, Holds-words, regions_words, length-words,
}
use udaq.Format.Regions.{
  rgn_id_of, data_length, rgn_size_of, id_reserved, rgn_err, check_rgn, rgns_loop, check_rgns,
}
use udaq.Format.Regions.Loop.{rgns_loop_done, rgns_loop_round, regions-counted}

module _ (layout : Layout) (mem : Memory) where
  -- The words from `p` to `te` stand for regions.
  abbrev pub Reads : ℕ → ℕ → Type 0
  Reads p te =
      (rs : List Region) × All IsRegion rs
      × Holds mem p (regions_words rs)
      × (p + length (regions_words rs) ≡ te)

  where_at : (p te : ℕ) → (te ≤ p) ⊎ (p < te)
  where_at p te = elim (Bool-cases (ltb p te)) [
    | inl e ↦ inr (ground (arith, e))
    | inr e ↦ inl (ground (arith, e))
  ]

  -- A round takes at least a word, so more rounds than there are words change nothing.
  rgns_loop-fuel :
      (n m te p rgn_num errors : ℕ) (s : Checker)
      → te ≤ p + n
      → te ≤ p + m
      → rgns_loop layout mem te n p rgn_num errors s ≡ rgns_loop layout mem te m p rgn_num errors s
  rgns_loop-fuel zero m te p rgn_num errors s l k =
      rgns_loop_done layout mem te zero p rgn_num errors s (omega (arith, l))
      ∙ sym (rgns_loop_done layout mem te m p rgn_num errors s (omega (arith, l)))
  rgns_loop-fuel (suc n) zero te p rgn_num errors s l k =
      rgns_loop_done layout mem te (suc n) p rgn_num errors s (omega (arith, k))
      ∙ sym (rgns_loop_done layout mem te zero p rgn_num errors s (omega (arith, k)))
  rgns_loop-fuel (suc n) (suc m) te p rgn_num errors s l k = elim (where_at p te) [
    | inl out ↦
        rgns_loop_done layout mem te (suc n) p rgn_num errors s out
        ∙ sym (rgns_loop_done layout mem te (suc m) p rgn_num errors s out)
    | inr more ↦
        rgns_loop_round layout mem te n p rgn_num errors s more
        ∙ rgns_loop-fuel n m te (p + (rgn_size_of (mem p) + 1)) (rgn_num + 1)
            (errors + rgn_err layout mem te p) (check_rgn layout mem te p s) (omega (arith, l))
            (omega (arith, k))
        ∙ sym (rgns_loop_round layout mem te m p rgn_num errors s more)
  ]

  no_round :
      (te p rgn_num errors : ℕ) (s : Checker)
      → rgns_loop layout mem te zero p rgn_num errors s
        ≡ record { num = rgn_num; errors = errors; state = s }
  unfolding rgns_loop
  no_round te p rgn_num errors s = refl

  -- Errors are only added.
  errors_grow :
      (n te p rgn_num errors : ℕ) (s : Checker)
      → errors ≤ (rgns_loop layout mem te n p rgn_num errors s).errors
  errors_grow zero te p rgn_num errors s = rw (no_round te p rgn_num errors s) (omega arith)
  errors_grow (suc n) te p rgn_num errors s = elim (where_at p te) [
    | inl out ↦ rw (rgns_loop_done layout mem te (suc n) p rgn_num errors s out) (omega arith)
    | inr more ↦ rw (rgns_loop_round layout mem te n p rgn_num errors s more) (
        omega (
          arith,
          errors_grow n te (p + (rgn_size_of (mem p) + 1)) (rgn_num + 1)
              (errors + rgn_err layout mem te p) (check_rgn layout mem te p s),
        ))
  ]

  legal :
      (te p : ℕ)
      → rgn_err layout mem te p ≡ 0
      → (0 < rgn_id_of (mem p))
        × (p + (rgn_size_of (mem p) + 1) ≤ te)
        × (rgn_size_of (mem p) ≡ data_length (mem p))
  unfolding rgn_err
  legal te p e =
      let named : rgn_id_of (mem p) == id_reserved ≡ false = ground (arith, e) in
      (ground (arith, named), ground (arith, e), rw named refl)

  -- The region that the words at `p` are.
  abbrev region_at : ℕ → Region
  region_at p = record {
    rgn_id = rgn_id_of (mem p);
    content = words mem (p + 1) (data_length (mem p));
  }

  -- The loop ends without an error only where the rest of the words stands for regions.
  regions_read :
      (fits : (q : ℕ) → mem q < 65536) (n te p rgn_num errors : ℕ) (s : Checker)
      → p ≤ te
      → te ≤ p + n
      → (rgns_loop layout mem te n p rgn_num errors s).errors ≡ errors
      → Reads p te
  regions_read fits zero te p rgn_num errors s h l e = ([], tt, tt, omega (arith, h, l))
  regions_read fits (suc n) te p rgn_num errors s h l e = elim (where_at p te) [
    | inl out ↦ ([], tt, tt, omega (arith, h, out))
    | inr more ↦
        let q = p + (rgn_size_of (mem p) + 1) in
        let t = check_rgn layout mem te p s in
        let err = rgn_err layout mem te p in
        let e' = rw (rgns_loop_round layout mem te n p rgn_num errors s more) at e in
        let none : err ≡ 0 = omega (arith, e', errors_grow n te q (rgn_num + 1) (errors + err) t) in
        let (pos, room, size) = legal te p none in
        let len = length-words mem (p + 1) (data_length (mem p)) in
        let (rs, v, h', e'') =
          regions_read fits n te q (rgn_num + 1) (errors + err) t room (omega (arith, l))
            (omega (arith, e', none)) in
        let total = length-append (words mem (p + 1) (data_length (mem p))) (regions_words rs) in
        (
          region_at p ∷ rs,
          ((pos, omega arith, omega (arith, len)), v),
          (
            omega (arith, len, fits p),
            Holds-join mem (p + 1) (words mem (p + 1) (data_length (mem p))) (regions_words rs)
                (Holds-words mem (p + 1) (data_length (mem p)))
                (Holds-at mem (regions_words rs) q
                  (p + 1 + length (words mem (p + 1) (data_length (mem p))))
                  (omega (arith, size, len)) h'),
          ),
          omega (arith, e'', total, size, len),
        )
  ]

  -- The fields of 16-bit words in which the check of regions finds no error are those that are made of
  -- regions: one after the other, each a header word with a number from 1 to 15 and its length, and then
  -- as many words, up to the end.
  pub check_rgns-accepts :
      (fits : (q : ℕ) → mem q < 65536) (buf size : ℕ) (s : Checker)
      → ((check_rgns layout mem buf size s).errors ≡ 0) ↔ Reads buf (buf + size)
  unfolding check_rgns
  check_rgns-accepts fits buf size s = (
    λ e. regions_read fits size (buf + size) buf 0 0 s (omega arith) (omega arith) e,
    λ r.
        let (rs, v, h, e) = r in
        (regions-counted layout mem rs (buf + size) size buf 0 0 s 0 v h e (omega (arith, e))).1,
  )

  -- The check of regions ends: the loop takes a word in a round at least, so the result is the same with
  -- any larger number of rounds.
  pub check_rgns-fuel :
      (n buf size : ℕ) (s : Checker)
      → size ≤ n
      → rgns_loop layout mem (buf + size) n buf 0 0 s ≡ check_rgns layout mem buf size s
  unfolding check_rgns
  check_rgns-fuel n buf size s l =
      rgns_loop-fuel n size (buf + size) buf 0 0 s (omega (arith, l)) (omega arith)

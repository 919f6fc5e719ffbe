-- ===== src/Format/Regions/Loop.antt =====
-- check_rgns on the words of regions: src/router/tools/check_format_lib.c.
use udaq.Base.{
  ℕ, zero, suc, ◌+◌, ◌*◌, ◌≤◌, ◌<◌, ◌≡◌, refl, ap, ◌∙◌, List, [], ◌∷◌, length, length-append, All,
  arith, ◌==◌, ltb, true, false, if-either, ◌||◌,
}
use udaq.Format.{Memory}
use udaq.Format.Counters.{cnt_num_rgns, cnt_num_rgn_0, cnt_err_rgns, cnt_err_rgn_size}
use udaq.Format.State.{Layout, Checker, tick, tick_if}
use udaq.Format.Ticks.{tick-counter, tick_none}
use udaq.Format.Encode.{
  Region, IsRegion, Holds, Holds-append, Holds-at, regions_words, regions_tally, hits,
}
use udaq.Format.Regions.{
  rgn_id_of, rgn_size_of, id_reserved, keep_data, rgn_err, check_rgn, rgns_loop,
}

module _ (layout : Layout) (mem : Memory) where
  pub keep_data-counter : (p : ℕ) (s : Checker) → (keep_data layout mem p s).counter ≡ s.counter
  unfolding keep_data
  keep_data-counter p s =
      let P : Checker → Type 0 = λ t. t.counter ≡ s.counter in
      let id = rgn_id_of (mem p) in
      if-either P (id == 13 || id == 14) refl
        (if-either P (id == 7) refl (if-either P (id == 2) refl (if-either P (id == 10) refl refl)))

  -- A region with a legal number that ends before `te` is counted, and nothing else.
  check_rgn-counter :
      (te p : ℕ) (s : Checker) (j : ℕ)
      → rgn_err layout mem te p ≡ 0
      → (check_rgn layout mem te p s).counter j
        ≡ s.counter j + (hits cnt_num_rgns j + hits (cnt_num_rgn_0 + rgn_id_of (mem p)) j)
  unfolding check_rgn rgn_err
  check_rgn-counter te p s j e =
      let i = cnt_num_rgn_0 + rgn_id_of (mem p) in
      let t = tick i (tick cnt_num_rgns s) in
      let fits : ltb te (p + (rgn_size_of (mem p) + 1)) ≡ false = ground (arith, e) in
      rw (e, fits, check_rgn)
        (tick_none cnt_err_rgns (tick_if false cnt_err_rgn_size (keep_data layout mem p t)) j
          ∙ tick_none cnt_err_rgn_size (keep_data layout mem p t) j
          ∙ ap (λ c. c j) (keep_data-counter p t)
          ∙ omega (arith, tick-counter i (tick cnt_num_rgns s) j, tick-counter cnt_num_rgns s j))

  pub rgns_loop_done :
      (te n p rgn_num errors : ℕ) (s : Checker)
      → te ≤ p
      → rgns_loop layout mem te n p rgn_num errors s
        ≡ record { num = rgn_num; errors = errors; state = s }
  unfolding rgns_loop
  rgns_loop_done te zero p rgn_num errors s h = refl
  rgns_loop_done te (suc n) p rgn_num errors s h =
      let out : ltb p te ≡ false = ground (arith, h) in rw (out, rgns_loop) refl

  pub rgns_loop_round :
      (te n p rgn_num errors : ℕ) (s : Checker)
      → p < te
      → rgns_loop layout mem te (suc n) p rgn_num errors s
        ≡ rgns_loop layout mem te n
            (p + (rgn_size_of (mem p) + 1))
            (rgn_num + 1)
            (errors + rgn_err layout mem te p)
            (check_rgn layout mem te p s)
  unfolding rgns_loop
  rgns_loop_round te n p rgn_num errors s h =
      let more : ltb p te ≡ true = ground (arith, h) in rw (more, rgns_loop) refl

  header_word :
      (r : Region) (w : ℕ)
      → IsRegion r
      → w ≡ 4096 * r.rgn_id + length r.content
      → (rgn_id_of w ≡ r.rgn_id) × (rgn_size_of w ≡ length r.content)
  header_word r w v e =
      let id : rgn_id_of w ≡ r.rgn_id = omega (arith, e, v.0, v.1, v.2) in
      (id, rw id (ground (arith, e, v.0, v.1, v.2)))

  legal_err :
      (te p : ℕ)
      → 0 < rgn_id_of (mem p)
      → p + (rgn_size_of (mem p) + 1) ≤ te
      → rgn_err layout mem te p ≡ 0
  unfolding rgn_err
  legal_err te p pos l =
      let big : ltb te (p + (rgn_size_of (mem p) + 1)) ≡ false = ground (arith, l) in
      let legal : rgn_id_of (mem p) == id_reserved ≡ false = ground (arith, pos) in
      rw (big, legal) refl

  -- The loop from the first word of the regions `rs`.
  pub regions-counted :
      (rs : List Region) (te n p rgn_num errors : ℕ) (s : Checker) (j : ℕ)
      → All IsRegion rs
      → Holds mem p (regions_words rs)
      → p + length (regions_words rs) ≡ te
      → length (regions_words rs) ≤ n
      → let r = rgns_loop layout mem te n p rgn_num errors s in
        (r.num ≡ rgn_num + length rs)
        × (r.errors ≡ errors)
        × (r.state.counter j ≡ s.counter j + regions_tally rs j)
  regions-counted [] te n p rgn_num errors s j v h e l =
      rw (rgns_loop_done te n p rgn_num errors s (omega (arith, e)))
        (omega arith, refl, omega arith)
  regions-counted (r ∷ rs) te zero p rgn_num errors s j v h e l = absurd (omega (arith, l))
  regions-counted (r ∷ rs) te (suc n) p rgn_num errors s j v h e l =
      let (pos, _, _) = v.0 in
      let (id, size) = header_word r (mem p) v.0 h.0 in
      let total = length-append r.content (regions_words rs) in
      let q = p + (rgn_size_of (mem p) + 1) in
      let (here, behind) = Holds-append mem (p + 1) r.content (regions_words rs) h.1 in
      let next =
        Holds-at mem (regions_words rs) (p + 1 + length r.content) q (omega (arith, size)) behind in
      let ok = legal_err te p (omega (arith, id, pos)) (omega (arith, size, e, total)) in
      let (a, b, c) =
        regions-counted rs te n q (rgn_num + 1) (errors + rgn_err layout mem te p)
          (check_rgn layout mem te p s) j v.1 next (omega (arith, size, e, total))
          (omega (arith, l, total)) in
      let counted = rw id at (check_rgn-counter te p s j ok) in
      rw (rgns_loop_round te n p rgn_num errors s (omega (arith, e)))
        (omega (arith, a), omega (arith, b, ok), omega (arith, c, counted))

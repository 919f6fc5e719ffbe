-- ===== src/Collector/Rounds.antt =====
-- What a round of collect_data in src/gr/collect_data.c puts into the ring, and what it tells the hardware.
use udaq.Base.{
  ℕ, zero, suc, ◌+◌, ◌-◌, ◌≤◌, ◌≡◌, refl, sym, ap, ◌∙◌, false, ◌||◌, some, List, [], ◌∷◌, ◌++◌, ltb,
  ◌==◌, if◌then◌else◌, inl, inr, Bool-cases, arith,
}
use mathlib.Core.List.{append_assoc, append-nil}
use udaq.Collector.{Lrm, max_lrm_num}
use udaq.Collector.Registers.{Level, rpv_ena_buf}
use udaq.Collector.Loop.{
  Action, put_rb_data, Bus, Collector, lrm_block, read_lrm, each_lrm, read_scaler, ena_buf,
  single_overflow, other_buffer, toggle_buf, act, set_level, lrm_reset,
}

-- The blocks that go into the ring.
abbrev pub blocks_put : List Action → List (List ℕ)
blocks_put [] = []
blocks_put (put_rb_data b ∷ as') = b ∷ blocks_put as'
blocks_put (_ ∷ as') = blocks_put as'

pub blocks_put-append :
    (xs ys : List Action) → blocks_put (xs ++ ys) ≡ blocks_put xs ++ blocks_put ys
blocks_put-append [] ys = refl
blocks_put-append (put_rb_data b ∷ xs) ys = ap (λ u. b ∷ u) (blocks_put-append xs ys)
blocks_put-append (Action.write_level l ∷ xs) ys = blocks_put-append xs ys
blocks_put-append (Action.rpv_clr ∷ xs) ys = blocks_put-append xs ys
blocks_put-append (Action.init_pulse ∷ xs) ys = blocks_put-append xs ys
blocks_put-append (Action.vts801_reset ∷ xs) ys = blocks_put-append xs ys
blocks_put-append (Action.vts801_read ∷ xs) ys = blocks_put-append xs ys
blocks_put-append (Action.lrm_dis i ∷ xs) ys = blocks_put-append xs ys
blocks_put-append (Action.lrm_ena i ∷ xs) ys = blocks_put-append xs ys
blocks_put-append (lrm_reset i ∷ xs) ys = blocks_put-append xs ys

-- The blocks in the ring after the actions so far.
abbrev pub ring : Collector → List (List ℕ)
ring s = blocks_put s.actions

module _ (blk_buf_size : ℕ) where
  -- The blocks of the modules with the given numbers that have data.
  abbrev pub data_blocks : (ℕ → Lrm) → List ℕ → List (List ℕ)
  data_blocks lrm [] = []
  data_blocks lrm (i ∷ is) =
      if ltb 0 (lrm i).mem_ptr
      then lrm_block blk_buf_size false (lrm i) ∷ data_blocks lrm is
      else data_blocks lrm is

  -- The modules of a buffer.
  abbrev pub modules_of : ℕ → List ℕ
  modules_of p = p ∷ (p + 2) ∷ (p + 4) ∷ (p + 6) ∷ (p + 8) ∷ (p + 10) ∷ []

  -- The numbers that the loop goes through.
  abbrev pub loop_numbers : ℕ → ℕ → List ℕ
  loop_numbers zero i = []
  loop_numbers (suc n) i = if ltb i max_lrm_num then i ∷ loop_numbers n (i + 2) else []

  read_lrm-ring :
      (i : ℕ) (lrm : Lrm) (s : Collector)
      → ring (read_lrm blk_buf_size false i lrm s) ≡ ring s ++ lrm_block blk_buf_size false lrm ∷ []
  read_lrm-ring i lrm s = simp (blocks_put-append, append-nil)

  pub each_lrm-ring :
      (read : ℕ → Lrm → Collector → Collector) (empty : ℕ → Collector → Collector)
      → ((i : ℕ) (lrm : Lrm) (s : Collector)
          → ring (read i lrm s) ≡ ring s ++ lrm_block blk_buf_size false lrm ∷ [])
      → ((i : ℕ) (s : Collector) → ring (empty i s) ≡ ring s)
      → (lrm : ℕ → Lrm) (n i : ℕ) (s : Collector)
      → ring (each_lrm blk_buf_size false read empty lrm n i s)
        ≡ ring s ++ data_blocks lrm (loop_numbers n i)
  unfolding each_lrm
  each_lrm-ring read empty reads quiet lrm zero i s = sym (append-nil (ring s))
  each_lrm-ring read empty reads quiet lrm (suc n) i s = elim (Bool-cases (ltb i max_lrm_num)) [
    | inr e ↦ rw (e, each_lrm) (sym (append-nil (ring s)))
    | inl e ↦ elim (Bool-cases (ltb 0 (lrm i).mem_ptr)) [
      | inl f ↦
          rw (e, f, each_lrm)
            (each_lrm-ring read empty reads quiet lrm n (i + 2) (read i (lrm i) s)
              ∙ ap (λ u. u ++ data_blocks lrm (loop_numbers n (i + 2))) (reads i (lrm i) s)
              ∙ append_assoc (ring s) (lrm_block blk_buf_size false (lrm i) ∷ [])
                  (data_blocks lrm (loop_numbers n (i + 2))))
      | inr f ↦
          rw (e, f, each_lrm)
            (each_lrm-ring read empty reads quiet lrm n (i + 2) (empty i s)
              ∙ ap (λ u. u ++ data_blocks lrm (loop_numbers n (i + 2))) (quiet i s))
    ]
  ]

  -- The loop touches neither the level nor the variables.
  each_lrm-level :
      (empty : ℕ → Collector → Collector)
      → ((i : ℕ) (s : Collector) → (empty i s).level ≡ s.level)
      → (lrm : ℕ → Lrm) (n i : ℕ) (s : Collector)
      → (each_lrm blk_buf_size false (read_lrm blk_buf_size false) empty lrm n i s).level ≡ s.level
  unfolding each_lrm
  each_lrm-level empty quiet lrm zero i s = refl
  each_lrm-level empty quiet lrm (suc n) i s = elim (Bool-cases (ltb i max_lrm_num)) [
    | inr e ↦ rw (e, each_lrm) refl
    | inl e ↦ elim (Bool-cases (ltb 0 (lrm i).mem_ptr)) [
      | inl f ↦ rw (e, f, each_lrm) (each_lrm-level empty quiet lrm n (i + 2) _)
      | inr f ↦
          rw (e, f, each_lrm) (each_lrm-level empty quiet lrm n (i + 2) (empty i s) ∙ quiet i s)
    ]
  ]

  pub numbers_lem : (p : ℕ) → p ≤ 1 → loop_numbers max_lrm_num p ≡ modules_of p
  numbers_lem zero h = refl
  numbers_lem (suc zero) h = refl
  numbers_lem (suc (suc p)) h = absurd (omega (arith, h))

  ena_buf-ring :
      (i : ℕ) (l : Level) (s : Collector)
      → rpv_ena_buf i s.level ≡ some l
      → ena_buf blk_buf_size false i s ≡ some (set_level l s)
  unfolding ena_buf
  ena_buf-ring i l s e = rw (e, ena_buf) refl

  pub set_level-ring : (l : Level) (s : Collector) → ring (set_level l s) ≡ ring s
  set_level-ring l s = simp (blocks_put-append, append-nil)

  pub scaler-ring :
      (b : List ℕ) (s : Collector) → ring (read_scaler blk_buf_size false b s) ≡ ring s ++ b ∷ []
  scaler-ring b s = simp (blocks_put-append, append-nil)

  reset-quiet : (i : ℕ) (s : Collector) → ring (act (lrm_reset i) s) ≡ ring s
  reset-quiet i s = simp (blocks_put-append, append-nil)

  -- The level where the buffer `i` is free, both for 3, and events are taken.
  abbrev pub free_buf : ℕ → Level → Level
  free_buf i l = record {
    buf1 = (i == 1 || i == 3) || l.buf1;
    buf2 = (i == 2 || i == 3) || l.buf2;
    veto = false;
  }

  -- The level after a buffer was freed, with the veto as it was.
  abbrev pub freed : ℕ → Level → Level
  freed i l = record (free_buf i l) { veto = l.veto }

  ena_level : (p : ℕ) (l : Level) → p ≤ 1 → rpv_ena_buf (p + 1) l ≡ some (freed (p + 1) l)
  unfolding rpv_ena_buf
  ena_level zero l h = refl
  ena_level (suc zero) l h = refl
  ena_level (suc (suc p)) l h = absurd (omega (arith, h))

  pub single-round :
      (bus : Bus) (p : ℕ) (s : Collector)
      → p ≤ 1
      → (t : Collector) × (single_overflow blk_buf_size false bus (p + 1) s ≡ some t)
        × (t.p_buf ≡ p)
        × (t.level ≡ freed (p + 1) s.level)
        × (ring t ≡ ring s ++ bus.scaler ∷ data_blocks bus.lrm (modules_of p))
  unfolding single_overflow
  single-round bus p s h =
      let start = read_scaler blk_buf_size false bus.scaler s in
      let read =
        each_lrm blk_buf_size false (read_lrm blk_buf_size false) (λ i t. act (lrm_reset i) t)
          bus.lrm max_lrm_num p start in
      let same =
        each_lrm-level (λ i t. act (lrm_reset i) t) (λ i t. refl) bus.lrm max_lrm_num p start in
      let blocks =
        each_lrm-ring (read_lrm blk_buf_size false) (λ i t. act (lrm_reset i) t) read_lrm-ring
          reset-quiet bus.lrm max_lrm_num p start
        ∙ ap (λ u. u ++ data_blocks bus.lrm (loop_numbers max_lrm_num p)) (scaler-ring bus.scaler s)
        ∙ append_assoc (ring s) (bus.scaler ∷ []) (data_blocks bus.lrm (loop_numbers max_lrm_num p))
        ∙ ap (λ u. ring s ++ bus.scaler ∷ data_blocks bus.lrm u) (numbers_lem p h) in
      let here : p + 1 - 1 ≡ p = omega arith in
      let u : Collector = record read { p_buf = p; i_buf = p + 1 } in
      (
        set_level (freed (p + 1) read.level) u,
        rw (here, single_overflow)
            (ena_buf-ring (p + 1) (freed (p + 1) read.level) u (ena_level p read.level h)),
        refl,
        ap (freed (p + 1)) same,
        set_level-ring (freed (p + 1) read.level) u ∙ blocks,
      )

  pub other-round :
      (bus : Bus) (p : ℕ) (s : Collector)
      → p ≤ 1
      → toggle_buf s.p_buf ≡ p
      → (t : Collector) × (other_buffer blk_buf_size false bus s ≡ some t)
        × (t.p_buf ≡ p)
        × (t.level ≡ freed (p + 1) s.level)
        × (ring t ≡ ring s ++ data_blocks bus.lrm (modules_of p))
  unfolding other_buffer
  other-round bus p s h e =
      let read =
        each_lrm blk_buf_size false (read_lrm blk_buf_size false) (λ i t. t) bus.lrm max_lrm_num p
          s in
      let same = each_lrm-level (λ i t. t) (λ i t. refl) bus.lrm max_lrm_num p s in
      let blocks =
        each_lrm-ring (read_lrm blk_buf_size false) (λ i t. t) read_lrm-ring (λ i t. refl) bus.lrm
          max_lrm_num p s
        ∙ ap (λ u. ring s ++ data_blocks bus.lrm u) (numbers_lem p h) in
      let u : Collector = record read { p_buf = p } in
      (
        set_level (freed (p + 1) read.level) u,
        rw (e, other_buffer)
            (ena_buf-ring (p + 1) (freed (p + 1) read.level) u (ena_level p read.level h)),
        refl,
        ap (freed (p + 1)) same,
        set_level-ring (freed (p + 1) read.level) u ∙ blocks,
      )

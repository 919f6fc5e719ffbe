-- ===== src/Collector/Overflow.antt =====
-- An overflow of the buffers in collect_data of src/gr/collect_data.c, from the read of the input register on.
use udaq.Base.{
  ℕ, zero, suc, ◌+◌, ◌-◌, ◌%◌, ◌≤◌, ◌<◌, ◌≡◌, refl, ap, ◌∙◌, true, false, Option, some, List, [],
  ◌∷◌, ◌++◌, ltb, ◌==◌, if◌then◌else◌, arith,
}
use mathlib.Core.List.{append_assoc, append-nil}
use udaq.Collector.{Lrm}
use udaq.Collector.Registers.{Level, rpv_dis, rpv_ena, rpv_dis_buf}
use udaq.Collector.Loop.{
  Bus, Collector, Action, act, set_level, read_scaler, toggle_buf, dis_buf, single_overflow,
  double_overflow, check_buffers, run_on_case,
}
use udaq.Collector.Rounds.{
  ring, blocks_put-append, data_blocks, modules_of, free_buf, freed, single-round, other-round,
  scaler-ring,
}

module _ (blk_buf_size : ℕ) where
  -- The data blocks of an overflow: those of one buffer, or of both, the one that was not read last first.
  abbrev pub overflow_blocks : ℕ → ℕ → (ℕ → Lrm) → List (List ℕ)
  overflow_blocks i p lrm =
      if i == 3
      then data_blocks blk_buf_size lrm (modules_of blk_buf_size (1 - p))
        ++ data_blocks blk_buf_size lrm (modules_of blk_buf_size p)
      else data_blocks blk_buf_size lrm (modules_of blk_buf_size (i - 1))

  -- The level between the veto and the read of the modules.
  abbrev taken : ℕ → Level → Level
  taken i l = record {
    buf1 = if i == 2 then l.buf1 else false;
    buf2 = if i == 1 then l.buf2 else false;
    veto = false;
  }

  abbrev counted : ℕ → Collector → Collector
  counted i s = record s {
    i_buf = i;
    strange_value_count = if ltb 3 i then s.strange_value_count + 1 else s.strange_value_count;
  }

  -- The state when the modules are read.
  abbrev vetoed : ℕ → Collector → Collector
  vetoed i s =
      let u =
        set_level (record (taken i s.level) { veto = true })
          (act Action.rpv_clr (set_level (rpv_dis s.level) (counted i s))) in
      set_level (rpv_ena u.level) u

  vetoed-ring : (i : ℕ) (s : Collector) → ring (vetoed i s) ≡ ring s
  vetoed-ring i s = simp (blocks_put-append, append-nil)

  single :
      (bus : Bus) (s : Collector) (p : ℕ)
      → p ≤ 1
      → check_buffers blk_buf_size false bus (p + 1) s
        ≡ single_overflow blk_buf_size false bus (p + 1) (vetoed (p + 1) s)
  unfolding check_buffers dis_buf rpv_dis_buf
  single bus s zero h = refl
  single bus s (suc zero) h = refl
  single bus s (suc (suc p)) h = absurd (omega (arith, h))

  double :
      (bus : Bus) (s : Collector)
      → check_buffers blk_buf_size false bus 3 s
        ≡ double_overflow blk_buf_size false bus (vetoed 3 s)
  unfolding check_buffers dis_buf rpv_dis_buf
  double bus s = refl

  -- What an overflow of the buffers `i` leaves.
  abbrev pub Served : Bus → Collector → ℕ → Option Collector → Type 0
  Served bus s i r =
      (t : Collector) × (r ≡ some t)
      × (t.p_buf ≤ 1)
      × (t.level ≡ free_buf blk_buf_size i s.level)
      × (ring t ≡ ring s ++ bus.scaler ∷ overflow_blocks i s.p_buf bus.lrm)

  single-Served :
      (bus : Bus) (s : Collector) (p : ℕ)
      → p ≤ 1
      → Served bus s (p + 1) (check_buffers blk_buf_size false bus (p + 1) s)
  single-Served bus s zero h =
      let (t, run, buf, level, blocks) = single-round blk_buf_size bus zero (vetoed 1 s) h in
      (
        t,
        single bus s zero h ∙ run,
        omega (arith, buf),
        level,
        blocks ∙ ap (λ u. u ++ bus.scaler ∷ overflow_blocks 1 s.p_buf bus.lrm) (vetoed-ring 1 s),
      )
  single-Served bus s (suc zero) h =
      let (t, run, buf, level, blocks) = single-round blk_buf_size bus 1 (vetoed 2 s) h in
      (
        t,
        single bus s 1 h ∙ run,
        omega (arith, buf),
        level,
        blocks ∙ ap (λ u. u ++ bus.scaler ∷ overflow_blocks 2 s.p_buf bus.lrm) (vetoed-ring 2 s),
      )
  single-Served bus s (suc (suc p)) h = absurd (omega (arith, h))

  pub toggled : (p : ℕ) → p ≤ 1 → (toggle_buf p ≡ 1 - p) × (toggle_buf (1 - p) ≡ p)
  toggled zero h = (refl, refl)
  toggled (suc zero) h = (refl, refl)
  toggled (suc (suc p)) h = absurd (omega (arith, h))

  double-Served :
      (bus : Bus) (s : Collector)
      → s.p_buf ≤ 1
      → Served bus s 3 (check_buffers blk_buf_size false bus 3 s)
  unfolding double_overflow
  double-Served bus s h =
      let (there, back) = toggled s.p_buf h in
      let start = read_scaler blk_buf_size false bus.scaler (vetoed 3 s) in
      let (t, run, buf, level, blocks) =
        other-round blk_buf_size bus (1 - s.p_buf) start (omega arith) there in
      let (u, run', buf', level', blocks') =
        other-round blk_buf_size bus s.p_buf t h (ap toggle_buf buf ∙ back) in
      let one = data_blocks blk_buf_size bus.lrm (modules_of blk_buf_size (1 - s.p_buf)) in
      let two = data_blocks blk_buf_size bus.lrm (modules_of blk_buf_size s.p_buf) in
      (
        u,
        double bus s ∙ rw (run, double_overflow) run',
        omega (arith, buf', h),
        level' ∙ ap (freed blk_buf_size (s.p_buf + 1)) level ∙ both s.p_buf h (taken 3 s.level),
        blocks'
            ∙ ap (λ v. v ++ two)
                (blocks
                  ∙ ap (λ v. v ++ one)
                      (scaler-ring blk_buf_size bus.scaler (vetoed 3 s)
                        ∙ ap (λ v. v ++ bus.scaler ∷ []) (vetoed-ring 3 s)))
            ∙ append_assoc (ring s ++ bus.scaler ∷ []) one two
            ∙ append_assoc (ring s) (bus.scaler ∷ []) (one ++ two),
      )
    where
      both :
          (p : ℕ)
          → p ≤ 1
          → (l : Level)
          → freed blk_buf_size (p + 1) (freed blk_buf_size (1 - p + 1) l)
            ≡ record { buf1 = true; buf2 = true; veto = l.veto }
      both zero h l = refl
      both (suc zero) h l = refl
      both (suc (suc p)) h l = absurd (omega (arith, h))

  served :
      (bus : Bus) (s : Collector) (i : ℕ)
      → s.p_buf ≤ 1
      → 0 < i
      → i ≤ 3
      → Served bus s i (check_buffers blk_buf_size false bus i s)
  served bus s zero h a b = absurd (omega (arith, a))
  served bus s (suc zero) h a b = single-Served bus s zero (omega arith)
  served bus s (suc (suc zero)) h a b = single-Served bus s 1 (omega arith)
  served bus s (suc (suc (suc zero))) h a b = double-Served bus s h
  served bus s (suc (suc (suc (suc i)))) h a b = absurd (omega (arith, b))

  -- With a ring to write to, and 0 or 1 as the buffer read last, at an overflow of one or of both buffers the process
  -- does not exit; the block of the scaler and then one block for each memory module of the buffers
  -- that has data, and for no other, are put in the ring in their order; and in the end these buffers
  -- are free again, the other is as it was, and events are taken.
  pub run_on_case-Served :
      (bus : Bus) (s : Collector)
      → s.p_buf ≤ 1
      → 0 < bus.ff % 256
      → bus.ff % 256 ≤ 3
      → Served bus s (bus.ff % 256) (run_on_case blk_buf_size false bus s)
  unfolding run_on_case
  run_on_case-Served bus s h a b = served bus s (bus.ff % 256) h a b

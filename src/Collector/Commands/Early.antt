-- ===== src/Collector/Commands/Early.antt =====
-- The end of a run in src/gr/collect_data.c, and a stop that comes before the start was seen.
use udaq.Base.{
  Bool-cases, inl, inr, ltb, ℕ, zero, suc, ◌+◌, ◌-◌, ◌≤◌, ◌≡◌, refl, ap, ◌∙◌, false, some, List, [],
  ◌∷◌, ◌++◌, arith,
}
use mathlib.Core.List.{append_assoc, append-nil}
use udaq.Collector.{Lrm, max_lrm_num}
use udaq.Collector.Registers.{rpv_dis}
use udaq.Collector.RunBlocks.{CmdMsgbuf, encode_run_end}
use udaq.Collector.Loop.{
  run_start, run_off, run_stop, Bus, Collector, set_level, put, lrm_block, read_lrm_last, each_lrm,
  read_scaler, toggle_buf, run_stop_case, collect_data,
}
use udaq.Collector.Rounds.{
  ring, blocks_put-append, data_blocks, modules_of, each_lrm-ring, numbers_lem, scaler-ring,
  set_level-ring,
}
use udaq.Collector.Overflow.{toggled}
use udaq.Collector.Commands.{gr_cmd_start, gr_cmd_stop, collect_cmd, swap_run}

module _ (blk_buf_size : ℕ) where
  last-ring :
      (i : ℕ) (lrm : Lrm) (s : Collector)
      → ring (read_lrm_last blk_buf_size false i lrm s)
        ≡ ring s ++ lrm_block blk_buf_size false lrm ∷ []
  last-ring i lrm s = simp (blocks_put-append, append-nil)

  put-ring : (b : List ℕ) (s : Collector) → ring (put blk_buf_size false b s) ≡ ring s ++ b ∷ []
  put-ring b s = simp (blocks_put-append, append-nil)

  each_lrm-status :
      (lrm : ℕ → Lrm) (n i : ℕ) (s : Collector)
      → (each_lrm blk_buf_size false (read_lrm_last blk_buf_size false) (λ i u. u) lrm n i s).status
        ≡ s.status
  unfolding each_lrm
  each_lrm-status lrm zero i s = refl
  each_lrm-status lrm (suc n) i s = elim (Bool-cases (ltb i max_lrm_num)) [
    | inr e ↦ rw (e, each_lrm) refl
    | inl e ↦ elim (Bool-cases (ltb 0 (lrm i).mem_ptr)) [
      | inl f ↦ rw (e, f, each_lrm) (each_lrm-status lrm n (i + 2) _)
      | inr f ↦ rw (e, f, each_lrm) (each_lrm-status lrm n (i + 2) s)
    ]
  ]

  -- The blocks at the end of a run: the scaler, the modules of the buffer that was not read last, the end block.
  abbrev pub last_blocks : Bus → ℕ → List ℕ → List (List ℕ)
  last_blocks bus p block =
      bus.scaler ∷ (data_blocks blk_buf_size bus.lrm (modules_of blk_buf_size p) ++ block ∷ [])

  stop-round :
      (bus : Bus) (s : Collector) (p : ℕ) (block : List ℕ)
      → p ≤ 1
      → toggle_buf s.p_buf ≡ p
      → encode_run_end blk_buf_size bus.time s.cmb ≡ some block
      → (t : Collector) × (run_stop_case blk_buf_size false bus s ≡ some t)
        × (t.status ≡ run_off)
        × (ring t ≡ ring s ++ last_blocks bus p block)
  unfolding run_stop_case
  stop-round bus s p block h e f =
      let off = set_level (rpv_dis s.level) (record s { status = run_off }) in
      let start = read_scaler blk_buf_size false bus.scaler off in
      let read =
        each_lrm blk_buf_size false (read_lrm_last blk_buf_size false) (λ i u. u) bus.lrm
          max_lrm_num p start in
      let found = data_blocks blk_buf_size bus.lrm (modules_of blk_buf_size p) in
      let blocks =
        each_lrm-ring blk_buf_size (read_lrm_last blk_buf_size false) (λ i u. u) last-ring
          (λ i t. refl) bus.lrm max_lrm_num p start
        ∙ ap (λ u. ring start ++ data_blocks blk_buf_size bus.lrm u) (numbers_lem blk_buf_size p h)
        ∙ ap (λ u. u ++ found)
            (scaler-ring blk_buf_size bus.scaler off
              ∙ ap (λ u. u ++ bus.scaler ∷ [])
                  (set_level-ring blk_buf_size (rpv_dis s.level)
                    (record s { status = run_off }))) in
      let u : Collector = record read { i_buf = 1; p_buf = 1 } in
      (
        put blk_buf_size false block u,
        rw (f, e, run_stop_case) refl,
        each_lrm-status bus.lrm max_lrm_num p start,
        put-ring block u
            ∙ ap (λ v. v ++ block ∷ []) blocks
            ∙ append_assoc (ring s ++ bus.scaler ∷ []) found (block ∷ [])
            ∙ append_assoc (ring s) (bus.scaler ∷ []) (found ++ block ∷ []),
      )

  -- Where no run is on, the buffer read last is 0 or 1 and the block of the end can be made from the message of the
  -- run before, a start, a stop and then a round end a run that never began: the round puts in the ring
  -- the block of the scaler, those of the memory modules of the other buffer and that block of the end, but no block
  -- of a start, and then no run is on.
  pub collect_cmd-early :
      (bus : Bus) (s : Collector) (mb mb' : CmdMsgbuf) (block : List ℕ)
      → s.status ≡ run_off
      → s.p_buf ≤ 1
      → encode_run_end blk_buf_size bus.time s.cmb ≡ some block
      → (u v t : Collector) × (collect_cmd gr_cmd_start mb s ≡ some u)
        × (collect_cmd gr_cmd_stop mb' u ≡ some v)
        × (collect_data blk_buf_size false bus v ≡ some t)
        × (t.status ≡ run_off)
        × (ring t ≡ ring s ++ last_blocks bus (1 - s.p_buf) block)
  unfolding collect_cmd collect_data
  collect_cmd-early bus s mb mb' block off h f =
      let (there, _) = toggled blk_buf_size s.p_buf h in
      let stopped : Collector = record s {
        mb = record mb' { run = swap_run mb'.run };
        status = run_stop;
      } in
      let (t, runs, off', blocks) =
        stop-round bus stopped (1 - s.p_buf) block (omega arith) there f in
      (
        record s { mb = record mb { run = swap_run mb.run }; status = run_start },
        stopped,
        t,
        rw off refl,
        refl,
        runs,
        off',
        blocks,
      )

-- ===== src/Collector/Commands/Start.antt =====
-- The start of a run: the command in src/gr/grcollect.c and the round of src/gr/collect_data.c that sees it.
use udaq.Base.{
  ℕ, zero, suc, ◌+◌, ◌%◌, ◌^◌, ◌<◌, ◌≡◌, refl, ◌∙◌, true, false, some, List, [], ◌∷◌, ◌++◌, arith,
}
use mathlib.Core.List.{append-nil}
use udaq.Collector.{max_lrm_num}
use udaq.Collector.Registers.{rpv_init, rpv_ena}
use udaq.Collector.RunBlocks.{CmdMsgbuf, encode_run_start}
use udaq.Collector.Loop.{
  run_start, run_off, run_on, Bus, Collector, Action, act, set_level, put, lrm_ena_all, lrm_ena,
  lrm_reset, run_start_case, collect_data,
}
use udaq.Collector.Rounds.{ring, blocks_put-append}
use udaq.Collector.Commands.{gr_cmd_start, collect_cmd, swap_run}

swap_run-one : (run : ℕ) → 0 < run % 2 ^ 32 → swap_run run ≡ 1
unfolding swap_run
swap_run-one run h = ground (arith, h)

module _ (blk_buf_size : ℕ) where
  lrm_ena_all-ring :
      (n i : ℕ) (s : Collector) → ring (lrm_ena_all blk_buf_size false n i s) ≡ ring s
  lrm_ena_all-ring zero i s = refl
  lrm_ena_all-ring (suc n) i s =
      lrm_ena_all-ring n (i + 1) (act (lrm_ena i) (act (lrm_reset i) s))
      ∙ simp (blocks_put-append, append-nil)

  lrm_ena_all-kept :
      (n i : ℕ) (s : Collector)
      → ((lrm_ena_all blk_buf_size false n i s).status ≡ s.status)
        × ((lrm_ena_all blk_buf_size false n i s).cmb ≡ s.cmb)
  lrm_ena_all-kept zero i s = (refl, refl)
  lrm_ena_all-kept (suc n) i s = lrm_ena_all-kept n (i + 1) (act (lrm_ena i) (act (lrm_reset i) s))

  -- What the round does after the block.
  abbrev initialised : Collector → Collector
  initialised s =
      let u =
        act Action.init_pulse
          (act Action.rpv_clr (set_level rpv_init (act Action.vts801_reset s))) in
      set_level (rpv_ena rpv_init) (set_level rpv_init u)

  initialised-ring : (s : Collector) → ring (initialised s) ≡ ring s
  initialised-ring s = simp (blocks_put-append, append-nil)

  -- Where no run is on, a start with a run number that is no multiple of 2^32 and a comment that a block can be made
  -- of, and the round after it, put in the ring the block of the start with that comment and the run
  -- number 1, whatever it was; then the run is on, both buffers are free and events are taken.
  pub collect_cmd-starts :
      (bus : Bus) (s : Collector) (mb : CmdMsgbuf) (block : List ℕ)
      → s.status ≡ run_off
      → 0 < mb.run % 2 ^ 32
      → encode_run_start blk_buf_size bus.time (record mb { run = 1 }) ≡ some block
      → (u t : Collector) × (collect_cmd gr_cmd_start mb s ≡ some u)
        × (collect_data blk_buf_size false bus u ≡ some t)
        × (t.status ≡ run_on)
        × (t.cmb ≡ record mb { run = 1 })
        × (t.level ≡ record { buf1 = true; buf2 = true; veto = false })
        × (ring t ≡ ring s ++ block ∷ [])
  unfolding collect_cmd collect_data run_start_case
  collect_cmd-starts bus s mb block off h e =
      let one = swap_run-one mb.run h in
      let message : CmdMsgbuf = record mb { run = 1 } in
      let u : Collector = record s { mb = message; status = run_start } in
      let put_block = put blk_buf_size false block (record u { status = run_on; cmb = message }) in
      let enabled = lrm_ena_all blk_buf_size false max_lrm_num 0 put_block in
      let (on, kept) = lrm_ena_all-kept max_lrm_num 0 put_block in
      (
        u,
        initialised enabled,
        rw (off, one) refl,
        rw (e, run_start_case) refl,
        on,
        kept,
        refl,
        initialised-ring enabled
            ∙ lrm_ena_all-ring max_lrm_num 0 put_block
            ∙ simp (blocks_put-append, append-nil),
      )

-- ===== src/Collector/Loop.antt =====
-- The loop of collect_data in src/gr/collect_data.c.
use udaq.Base.{
  ℕ, zero, suc, ◌+◌, ◌-◌, ◌%◌, Bool, ◌&&◌, Option, none, some, List, [], ◌∷◌, ◌++◌, ltb, leb, ◌==◌,
  if◌then◌else◌,
}
use udaq.Collector.{Lrm, max_lrm_num, lrm_word, lrm_get2, zeros}
use udaq.Collector.Registers.{Level, rpv_init, rpv_ena, rpv_dis, rpv_dis_buf, rpv_ena_buf}
use udaq.Collector.RunBlocks.{CmdMsgbuf, encode_run_start, encode_run_end}

pub data Status : Type 0 where
  run_stop run_start run_off run_on : Status

-- What the thread does to the ring and to the modules on the bus.
pub data Action : Type 0 where
  put_rb_data : List ℕ → Action
  write_level : Level → Action
  rpv_clr init_pulse vts801_reset vts801_read : Action
  lrm_dis lrm_ena lrm_reset : ℕ → Action

-- What the bus gives in a round: the flip-flops of the input register, the memory modules, the block of
-- the scaler, and the time.
pub record Bus : Type 0 where
  pub ff : ℕ
  pub lrm : ℕ → Lrm
  pub scaler : List ℕ
  pub time : ℕ

-- The status that the threads share, the message of the last command with the copy that encode_run_start keeps,
-- and the variables of the thread.
pub record Collector : Type 0 where
  pub status : Status
  pub mb : CmdMsgbuf
  pub cmb : CmdMsgbuf
  pub level : Level
  pub i_buf : ℕ
  pub p_buf : ℕ
  pub strange_value_count : ℕ
  pub actions : List Action

abbrev pub act : Action → Collector → Collector
act a s = record s { actions = s.actions ++ a ∷ [] }

abbrev pub set_level : Level → Collector → Collector
set_level l s = record s { level = l; actions = s.actions ++ write_level l ∷ [] }

-- `(a) ^ 0x1`
abbrev pub toggle_buf : ℕ → ℕ
toggle_buf a = if a % 2 == 0 then a + 1 else a - 1

module _ (blk_buf_size : ℕ) (local_flag : Bool) where
  -- `if(local_flag == 0) put_rb_data(rb, buf);`
  abbrev pub put : List ℕ → Collector → Collector
  put buf s = if local_flag then s else act (put_rb_data buf) s

  -- The data of a module, with zeros behind them.
  abbrev pub lrm_block : Lrm → List ℕ
  lrm_block lrm = lrm_get2 blk_buf_size lrm ++ zeros (blk_buf_size - lrm_word blk_buf_size lrm)

  -- A module that has data, in a round of overflow.
  abbrev pub read_lrm : ℕ → Lrm → Collector → Collector
  read_lrm i lrm s = act (lrm_ena i) (act (lrm_reset i) (put (lrm_block lrm) (act (lrm_dis i) s)))

  -- The same at the end of a run, where the module is reset before the data go to the ring.
  abbrev pub read_lrm_last : ℕ → Lrm → Collector → Collector
  read_lrm_last i lrm s =
      put (lrm_block lrm) (act (lrm_ena i) (act (lrm_reset i) (act (lrm_dis i) s)))

  -- `for(i=...;i<MAX_LRM_NUM;i+=2)`, with `n` rounds at most, where `empty` is done for a module without data.
  unfoldable pub each_lrm :
      (ℕ → Lrm → Collector → Collector)
      → (ℕ → Collector → Collector)
      → (ℕ → Lrm)
      → ℕ
      → ℕ
      → Collector
      → Collector
  each_lrm read empty lrm zero i s = s
  each_lrm read empty lrm (suc n) i s =
      if ltb i max_lrm_num
      then each_lrm read empty lrm n (i + 2)
          (if ltb 0 (lrm i).mem_ptr then read i (lrm i) s else empty i s)
      else s

  -- `vts801_read`, `vts801_reset` and the block of the scaler.
  abbrev pub read_scaler : List ℕ → Collector → Collector
  read_scaler scaler s = put scaler (act vts801_reset (act vts801_read s))

  -- none where the process exits.
  unfoldable pub ena_buf : ℕ → Collector → Option Collector
  ena_buf i s = elim (rpv_ena_buf i s.level) [ none ↦ none | some l ↦ some (set_level l s) ]

  unfoldable pub dis_buf : ℕ → Collector → Option Collector
  dis_buf i s = elim (rpv_dis_buf i s.level) [ none ↦ none | some l ↦ some (set_level l s) ]

  -- An overflow of the buffer `i_buf`, which is 1 or 2.
  unfoldable pub single_overflow : Bus → ℕ → Collector → Option Collector
  single_overflow bus i_buf s =
      let read =
        each_lrm read_lrm (λ i t. act (lrm_reset i) t) bus.lrm max_lrm_num (i_buf - 1)
          (read_scaler bus.scaler s) in
      ena_buf i_buf (record read { p_buf = i_buf - 1; i_buf = i_buf })

  -- One of the two rounds over the buffers at an overflow of both.
  unfoldable pub other_buffer : Bus → Collector → Option Collector
  other_buffer bus s =
      let p = toggle_buf s.p_buf in
      let read = each_lrm read_lrm (λ i t. t) bus.lrm max_lrm_num p s in
      ena_buf (p + 1) (record read { p_buf = p })

  unfoldable pub double_overflow : Bus → Collector → Option Collector
  double_overflow bus s = elim (other_buffer bus (read_scaler bus.scaler s)) [
    | none ↦ none
    | some t ↦ other_buffer bus t
  ]

  -- `case RUN_ON`, with the low byte of the input register.
  unfoldable pub check_buffers : Bus → ℕ → Collector → Option Collector
  check_buffers bus i_buf s =
      let t = record s {
        i_buf = i_buf;
        strange_value_count =
            if ltb 3 i_buf then s.strange_value_count + 1 else s.strange_value_count;
      } in
      if ltb 0 i_buf && leb i_buf 3
      then elim (dis_buf i_buf (act rpv_clr (set_level (rpv_dis s.level) t))) [
        | none ↦ none
        | some u ↦
            let v = set_level (rpv_ena u.level) u in
            if i_buf == 3 then double_overflow bus v else single_overflow bus i_buf v
      ]
      else some t

  unfoldable pub run_on_case : Bus → Collector → Option Collector
  run_on_case bus s = check_buffers bus (bus.ff % 256) s

  -- `case RUN_START`
  abbrev pub lrm_ena_all : ℕ → ℕ → Collector → Collector
  lrm_ena_all zero i s = s
  lrm_ena_all (suc n) i s = lrm_ena_all n (i + 1) (act (lrm_ena i) (act (lrm_reset i) s))

  unfoldable pub run_start_case : Bus → Collector → Option Collector
  run_start_case bus s = elim (encode_run_start blk_buf_size bus.time s.mb) [
    | none ↦ none
    | some block ↦
        let t = put block (record s { status = run_on; cmb = s.mb }) in
        let u =
          act init_pulse
            (act rpv_clr (set_level rpv_init (act vts801_reset (lrm_ena_all max_lrm_num 0 t)))) in
        some (set_level (rpv_ena rpv_init) (set_level rpv_init u))
  ]

  -- `case RUN_STOP`
  unfoldable pub run_stop_case : Bus → Collector → Option Collector
  run_stop_case bus s =
      let p = toggle_buf s.p_buf in
      let t =
        read_scaler bus.scaler (set_level (rpv_dis s.level) (record s { status = run_off })) in
      let read = each_lrm read_lrm_last (λ i u. u) bus.lrm max_lrm_num p t in
      elim (encode_run_end blk_buf_size bus.time s.cmb) [
        | none ↦ none
        | some block ↦ some (put block (record read { i_buf = 1; p_buf = 1 }))
      ]

  -- A round of the loop.
  unfoldable pub collect_data : Bus → Collector → Option Collector
  collect_data bus s = elim s.status [
    | run_start ↦ run_start_case bus s
    | run_on ↦ run_on_case bus s
    | run_stop ↦ run_stop_case bus s
    | run_off ↦ some s
  ]

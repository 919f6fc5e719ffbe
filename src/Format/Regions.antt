-- ===== src/Format/Regions.antt =====
-- check_rgns of src/router/tools/check_format_lib.c: the regions of a field.
pub mod Loop
pub mod Accepts
use udaq.Base.{ℕ, zero, suc, ◌+◌, ◌-◌, ◌/◌, ◌%◌, ◌||◌, not, ltb, ◌==◌, if◌then◌else◌}
use udaq.Format.{Memory, count_if}
use udaq.Format.Counters.{cnt_num_rgns, cnt_num_rgn_0, cnt_err_rgns, cnt_err_rgn_size}
use udaq.Format.State.{Layout, Checker, Checked, tick, tick_if}
use udaq.Format.Modules.Fera.{check_fera}
use udaq.Format.Modules.Lr3377.{check_lr3377}
use udaq.Format.Modules.Pcos.{check_pcos}
use udaq.Format.Modules.Inpreg.{check_inpreg}

-- `(*rgn & ModuleIDMask) >> 12`
abbrev pub rgn_id_of : ℕ → ℕ
rgn_id_of w = w / 4096 % 16

-- `*rgn & DataLengthMask`
abbrev pub data_length : ℕ → ℕ
data_length w = w % 4096

abbrev pub id_reserved : ℕ
id_reserved = 0

abbrev pub id_nim_in : ℕ
id_nim_in = 2

abbrev pub id_3377 : ℕ
id_3377 = 7

abbrev pub id_4299_mwpc : ℕ
id_4299_mwpc = 10

abbrev pub id_fera_adc : ℕ
id_fera_adc = 13

abbrev pub id_fera_tdc : ℕ
id_fera_tdc = 14

-- In a reserved region the search for the next header stops at the word behind it.
abbrev pub rgn_size_of : ℕ → ℕ
rgn_size_of w = if rgn_id_of w == id_reserved then 0 else data_length w

module _ (layout : Layout) (mem : Memory) where
  -- The cases of the switch that keep words. A length of -1 for check_pcos is 0 here: either ends its loops.
  unfoldable pub keep_data : ℕ → Checker → Checker
  keep_data p s =
      let id = rgn_id_of (mem p) in
      let len = data_length (mem p) in
      if id == id_fera_adc || id == id_fera_tdc
      then record s { fera = check_fera layout.fera_bits mem (p + 1) len s.fera }
      else if id == id_3377
      then record s { lr3377 = check_lr3377 layout.lr3377_bits mem (p + 1) len s.lr3377 }
      else if id == id_nim_in
      then record s { inpreg = check_inpreg mem (p + 1) len s.inpreg }
      else if id == id_4299_mwpc
      then record s { pcos = check_pcos layout.pcos_bits mem (p + 2) (len - 1) s.pcos }
      else s

  -- The number of errors of the region at `p`.
  unfoldable pub rgn_err : ℕ → ℕ → ℕ
  rgn_err te p =
      count_if (rgn_id_of (mem p) == id_reserved)
      + count_if (ltb te (p + (rgn_size_of (mem p) + 1)))

  -- The globals after the region at `p`.
  unfoldable pub check_rgn : ℕ → ℕ → Checker → Checker
  check_rgn te p s =
      let counted = tick (cnt_num_rgn_0 + rgn_id_of (mem p)) (tick cnt_num_rgns s) in
      let sized =
        tick_if (ltb te (p + (rgn_size_of (mem p) + 1))) cnt_err_rgn_size (keep_data p counted) in
      tick_if (not (rgn_err te p == 0)) cnt_err_rgns sized

  -- The loop, with `n` rounds at most.
  unfoldable pub rgns_loop : ℕ → ℕ → ℕ → ℕ → ℕ → Checker → Checked
  rgns_loop te zero p rgn_num errors s = record { num = rgn_num; errors = errors; state = s }
  rgns_loop te (suc n) p rgn_num errors s =
      let rest =
        rgns_loop te n (p + (rgn_size_of (mem p) + 1)) (rgn_num + 1) (errors + rgn_err te p)
          (check_rgn te p s) in
      if ltb p te then rest else record { num = rgn_num; errors = errors; state = s }

  -- A round takes a word at least, so `size` rounds are enough.
  unfoldable pub check_rgns : ℕ → ℕ → Checker → Checked
  check_rgns buf size s = rgns_loop (buf + size) size buf 0 0 s

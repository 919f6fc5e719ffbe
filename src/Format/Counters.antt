-- ===== src/Format/Counters.antt =====
-- `counter[]` of src/router/tools/check_format_lib.c and the positions of `enum counter`.
use udaq.Base.{ℕ, ◌+◌}
use udaq.Format.{put_at}

-- `counter[i]++`
unfoldable pub bump : ℕ → (ℕ → ℕ) → ℕ → ℕ
bump i counter = put_at i (counter i + 1) counter

abbrev pub cnt_num_blks : ℕ
cnt_num_blks = 0

abbrev pub cnt_num_evts : ℕ
cnt_num_evts = 1

abbrev pub cnt_num_flds : ℕ
cnt_num_flds = 2

abbrev pub cnt_num_rgns : ℕ
cnt_num_rgns = 3

abbrev pub cnt_num_rgn_0 : ℕ
cnt_num_rgn_0 = 4

abbrev pub cnt_err_blks : ℕ
cnt_err_blks = 20

abbrev pub cnt_err_evts : ℕ
cnt_err_evts = 21

abbrev pub cnt_err_flds : ℕ
cnt_err_flds = 22

abbrev pub cnt_err_rgns : ℕ
cnt_err_rgns = 23

abbrev pub cnt_err_blk_header : ℕ
cnt_err_blk_header = 24

abbrev pub cnt_err_blk_trailer : ℕ
cnt_err_blk_trailer = 25

abbrev pub cnt_err_blk_size : ℕ
cnt_err_blk_size = 26

abbrev pub cnt_err_blk_cont : ℕ
cnt_err_blk_cont = 27

abbrev pub cnt_err_evt_header : ℕ
cnt_err_evt_header = 28

abbrev pub cnt_err_evt_size : ℕ
cnt_err_evt_size = 29

abbrev pub cnt_err_evt_cont : ℕ
cnt_err_evt_cont = 30

abbrev pub cnt_err_fld_header : ℕ
cnt_err_fld_header = 31

abbrev pub cnt_err_fld_size : ℕ
cnt_err_fld_size = 32

abbrev pub cnt_err_fld_cont : ℕ
cnt_err_fld_cont = 33

abbrev pub cnt_err_rgn_size : ℕ
cnt_err_rgn_size = 36

-- ===== src/Format/State.antt =====
-- The globals of src/router/tools/check_format_lib.c, and the numbers of src/router/tools/mtformat.h.
use udaq.Base.{ℕ, Bool, if◌then◌else◌}
use udaq.Format.Counters.{bump}
use udaq.Format.Modules.Fera.{Fera, FeraBits}
use udaq.Format.Modules.Lr3377.{Lr3377, Lr3377Bits}
use udaq.Format.Modules.Pcos.{Pcos, PcosBits}
use udaq.Format.Modules.Inpreg.{Inpreg}

-- The bit fields of the headers that the check includes.
pub record Layout : Type 0 where
  pub fera_bits : FeraBits
  pub lr3377_bits : Lr3377Bits
  pub pcos_bits : PcosBits

pub record Checker : Type 0 where
  pub counter : ℕ → ℕ
  pub blk_num : ℕ
  pub inpreg : Inpreg
  pub fera : Fera
  pub lr3377 : Lr3377
  pub pcos : Pcos

abbrev pub clear_counters : Checker → Checker
clear_counters s = record s { counter = λ i. 0; blk_num = 0 }

unfoldable pub tick : ℕ → Checker → Checker
tick i s = record s { counter = bump i s.counter }

unfoldable pub tick_if : Bool → ℕ → Checker → Checker
tick_if b i s = if b then tick i s else s

-- What a check gives: its result, `*error`, and the globals.
pub record Checked : Type 0 where
  pub num : ℕ
  pub errors : ℕ
  pub state : Checker

abbrev pub blk_header_id : ℕ
blk_header_id = 65535

abbrev pub blk_trailer_id : ℕ
blk_trailer_id = 65519

abbrev pub evt_header_id : ℕ
evt_header_id = 65503

abbrev pub fld_header_id : ℕ
fld_header_id = 65487

-- The sizes of the structures in words.
abbrev pub blk_header_size : ℕ
blk_header_size = 8

abbrev pub blk_trailer_size : ℕ
blk_trailer_size = 2

abbrev pub evt_header_size : ℕ
evt_header_size = 6

abbrev pub fld_header_size : ℕ
fld_header_size = 4

abbrev pub run_comment_size : ℕ
run_comment_size = 70

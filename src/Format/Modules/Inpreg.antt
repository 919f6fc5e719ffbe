-- ===== src/Format/Modules/Inpreg.antt =====
-- The input registers: check_inpreg, check_inpreg_init and what show_inpreg changes, of
-- src/router/tools/check_format_lib.c.
use udaq.Base.{ℕ, zero, suc, ◌+◌, ◌/◌, ◌%◌, List, [], ◌∷◌, ltb, leb, ◌==◌, if◌then◌else◌}
use udaq.Format.{Memory, words, put_at}
use udaq.Format.Modules.{keep_raw}

-- `struct INPREG`; `word` is its field `data`.
pub record InpregModule : Type 0 where
  pub word : ℕ
  pub bits : ℕ → ℕ
  pub diff : ℕ → ℕ
  pub sum : ℕ → ℕ

-- `inpreg`, `ninpreg`, `cinpreg`, `inpreg_dat[0..ninpreg_dat-1]` and `show_inpreg_count`
pub record Inpreg : Type 0 where
  pub mods : ℕ → InpregModule
  pub ninpreg : ℕ
  pub cinpreg : ℕ
  pub raw : List ℕ
  pub show_count : ℕ

abbrev pub max_inpreg_mods : ℕ
max_inpreg_mods = 64

abbrev pub max_inpreg_dat : ℕ
max_inpreg_dat = 64

abbrev pub nch_inpreg : ℕ
nch_inpreg = 16

-- `for(i=0; i<NCHINPREG; i++){ if(data&1) ...; data >>= 1; }`, with `n` rounds left.
unfoldable pub read_bits : ℕ → ℕ → ℕ → InpregModule → InpregModule
read_bits zero i word m = m
read_bits (suc n) i word m = read_bits n (i + 1) (word / 2) (
    if word % 2 == 1
    then record m {
      bits = put_at i 1 m.bits;
      diff = put_at i (m.diff i + 1) m.diff;
      sum = put_at i (m.sum i + 1) m.sum;
    }
    else record m { bits = put_at i 0 m.bits })

abbrev pub read_word : ℕ → InpregModule → InpregModule
read_word w m = read_bits nch_inpreg 0 w (record m { word = w })

-- `while(len>0){ ... }`
unfoldable pub inpreg_words : List ℕ → Inpreg → Inpreg
inpreg_words [] s = s
inpreg_words (w ∷ ws) s =
    let rest = inpreg_words ws (record s {
      mods = put_at s.cinpreg (read_word w (s.mods s.cinpreg)) s.mods;
      ninpreg = s.cinpreg + 1;
      cinpreg = s.cinpreg + 1;
    }) in
    if leb max_inpreg_mods s.cinpreg then s else rest

unfoldable pub check_inpreg : Memory → ℕ → ℕ → Inpreg → Inpreg
check_inpreg mem ptr len s =
    inpreg_words (words mem ptr len)
      (record s { raw = keep_raw max_inpreg_dat (words mem ptr len) s.raw })

abbrev pub check_inpreg_init : Inpreg → Inpreg
check_inpreg_init s = record s { raw = []; cinpreg = 0 }

abbrev pub clear_diff : ℕ → (ℕ → InpregModule) → ℕ → InpregModule
clear_diff n mods i = if ltb i n then record (mods i) { diff = λ j. 0 } else mods i

-- `show_inpreg_itvl` says in which calls something is shown.
unfoldable pub show_inpreg : ℕ → Inpreg → Inpreg
show_inpreg show_itvl s =
    if ltb (s.show_count + 1) show_itvl
    then record s { show_count = s.show_count + 1 }
    else record s { show_count = 0; mods = clear_diff s.ninpreg s.mods }

-- ===== src/Format/Modules/Fera.antt =====
-- The FERA modules: check_fera and check_fera_init of src/router/tools/check_format_lib.c. The layout of
-- the bit fields, which fera.h declares, is a parameter.
use udaq.Base.{ℕ, ◌+◌, ◌-◌, List, [], ◌∷◌, map, none, some, ℤ, pos, negsuc}
use udaq.Format.{Memory, words, put_at}
use udaq.Format.Modules.{keep_raw, enter, change_at, bubble_sort}

-- `fera_header` and `fera_data`
pub record FeraBits : Type 0 where
  pub vsn : ℕ → ℕ
  pub ch : ℕ → ℕ
  pub dat : ℕ → ℕ

-- `struct FERA`
pub record FeraModule : Type 0 where
  pub id : ℕ
  pub channels : ℕ → ℤ

-- `fera[0..nfera-1]` and `fera_dat[0..nfera_dat-1]`
pub record Fera : Type 0 where
  pub mods : List FeraModule
  pub raw : List ℕ

abbrev pub max_fera_mods : ℕ
max_fera_mods = 64

abbrev pub max_fera_dat : ℕ
max_fera_dat = 4096

abbrev pub no_data : ℕ → ℤ
no_data ch = negsuc 0

abbrev pub fera_id : FeraModule → ℕ
fera_id m = m.id

module _ (bits : FeraBits) where
  -- `for(j=0; j<len; j++){ ... fera[i].data[ch] = dat; }`
  unfoldable pub fera_words : List ℕ → FeraModule → FeraModule
  fera_words [] m = m
  fera_words (w ∷ ws) m =
      fera_words ws (record m { channels = put_at (bits.ch w) (pos (bits.dat w)) m.channels })

  -- The header word is read whatever `len` is.
  unfoldable pub check_fera : Memory → ℕ → ℕ → Fera → Fera
  check_fera mem ptr len s =
      let raw = keep_raw max_fera_dat (words mem ptr len) s.raw in
      let vsn = bits.vsn (mem ptr) in
      elim (enter fera_id max_fera_mods vsn (record { id = vsn; channels = no_data }) s.mods) [
        | none ↦ record s { raw = raw }
        | some (i, mods) ↦ record {
          mods = change_at i (fera_words (words mem (ptr + 1) (len - 1))) mods;
          raw = raw;
        }
      ]

-- Only the numbers of two modules are exchanged.
abbrev pub swap_fera : FeraModule → FeraModule → FeraModule × FeraModule
swap_fera a b = (record a { id = b.id }, record b { id = a.id })

abbrev pub clear_fera : FeraModule → FeraModule
clear_fera m = record m { channels = no_data }

unfoldable pub check_fera_init : Fera → Fera
check_fera_init s = record {
  mods = bubble_sort fera_id swap_fera (map clear_fera s.mods);
  raw = [];
}

-- ===== src/Format/Modules/Lr3377.antt =====
-- The 3377 modules: check_lr3377 and check_lr3377_init of src/router/tools/check_format_lib.c. The layout of
-- the bit fields, which lr3377.h declares, is a parameter.
use udaq.Base.{ℕ, ◌+◌, Bool, List, [], ◌∷◌, map, Option, none, some, ℤ, pos, negsuc}
use udaq.Format.{Memory, words, put_at}
use udaq.Format.Modules.{keep_raw, enter, change_at, bubble_sort}

-- `lr3377_header` and `lr3377_data`; `word` and `edge` only give warnings.
pub record Lr3377Bits : Type 0 where
  pub hdr : ℕ → Bool
  pub vsn : ℕ → ℕ
  pub evt : ℕ → ℕ
  pub ch : ℕ → ℕ
  pub dat : ℕ → ℕ

-- `struct LR3377`
pub record Lr3377Module : Type 0 where
  pub id : ℕ
  pub evt : ℤ
  pub channels : ℕ → ℤ
  pub nhit : ℕ → ℕ

-- `lr3377[0..n3377-1]` and `lr3377_dat[0..n3377_dat-1]`
pub record Lr3377 : Type 0 where
  pub mods : List Lr3377Module
  pub raw : List ℕ

abbrev pub max_3377_mods : ℕ
max_3377_mods = 256

abbrev pub max_3377_dat : ℕ
max_3377_dat = 4096

abbrev pub lr3377_id : Lr3377Module → ℕ
lr3377_id m = m.id

abbrev pub fresh_3377 : ℕ → Lr3377Module
fresh_3377 id = record { id = id; evt = negsuc 0; channels = λ ch. negsuc 0; nhit = λ ch. 0 }

abbrev pub hit_3377 : ℕ → ℕ → Lr3377Module → Lr3377Module
hit_3377 ch dat m = record m {
  channels = put_at ch (pos dat) m.channels;
  nhit = put_at ch (m.nhit ch + 1) m.nhit;
}

module _ (bits : Lr3377Bits) where
  -- `while(len>0){ ... }`; the module of the last header is none before the first one.
  unfoldable pub lr3377_words : List ℕ → Option ℕ → List Lr3377Module → List Lr3377Module
  lr3377_words [] at mods = mods
  lr3377_words (w ∷ ws) at mods = elim (bits.hdr w) [
    | Bool.true ↦ elim (enter lr3377_id max_3377_mods (bits.vsn w) (fresh_3377 (bits.vsn w)) mods) [
      | none ↦ mods
      | some (i, mods') ↦
          lr3377_words ws (some i) (change_at i (λ m. record m { evt = pos (bits.evt w) }) mods')
    ]
    | Bool.false ↦ elim at [
      | none ↦ lr3377_words ws none mods
      | some i ↦ lr3377_words ws (some i) (change_at i (hit_3377 (bits.ch w) (bits.dat w)) mods)
    ]
  ]

  unfoldable pub check_lr3377 : Memory → ℕ → ℕ → Lr3377 → Lr3377
  check_lr3377 mem ptr len s = record {
    mods = lr3377_words (words mem ptr len) none s.mods;
    raw = keep_raw max_3377_dat (words mem ptr len) s.raw;
  }

-- The numbers and the counts of hits are exchanged.
abbrev pub swap_3377 : Lr3377Module → Lr3377Module → Lr3377Module × Lr3377Module
swap_3377 a b = (record a { id = b.id; nhit = b.nhit }, record b { id = a.id; nhit = a.nhit })

abbrev pub clear_3377 : Lr3377Module → Lr3377Module
clear_3377 m = record m { evt = negsuc 0; channels = λ ch. negsuc 0 }

unfoldable pub check_lr3377_init : Lr3377 → Lr3377
check_lr3377_init s = record {
  mods = bubble_sort lr3377_id swap_3377 (map clear_3377 s.mods);
  raw = [];
}

-- ===== src/Format/Modules/Pcos.antt =====
-- The PCOS modules: check_pcos and check_pcos_init of src/router/tools/check_format_lib.c. The layout of
-- the bit fields, which pcos.h declares, is a parameter.
use udaq.Base.{ℕ, zero, suc, ◌+◌, ◌-◌, ◌%◌, Bool, List, [], ◌∷◌, map, none, some}
use udaq.Format.{Memory, words, put_at}
use udaq.Format.Modules.{keep_raw, enter, change_at, bubble_sort}

-- `pcos_delim`, `pcos_width` and `pcos_mod`
pub record PcosBits : Type 0 where
  pub hdr : ℕ → Bool
  pub delim : ℕ → Bool
  pub width : ℕ → ℕ
  pub addr : ℕ → ℕ
  pub ch : ℕ → ℕ
  pub half : ℕ → Bool

-- `struct PCOS`
pub record PcosModule : Type 0 where
  pub addr : ℕ
  pub hit : ℕ → ℕ
  pub nhit : ℕ → ℕ

-- `pcos[0..npcos-1]` and `pcos_dat[0..npcos_dat-1]`
pub record Pcos : Type 0 where
  pub mods : List PcosModule
  pub raw : List ℕ

abbrev pub max_pcos_mods : ℕ
max_pcos_mods = 256

abbrev pub max_pcos_dat : ℕ
max_pcos_dat = 4096

abbrev pub pcos_addr : PcosModule → ℕ
pcos_addr m = m.addr

abbrev pub fresh_pcos : ℕ → PcosModule
fresh_pcos addr = record { addr = addr; hit = λ ch. 0; nhit = λ ch. 0 }

abbrev pub hit_pcos : ℕ → PcosModule → PcosModule
hit_pcos ch m = record m {
  hit = put_at ch (m.hit ch + 1) m.hit;
  nhit = put_at ch (m.nhit ch + 1) m.nhit;
}

module _ (bits : PcosBits) where
  -- The loop over the width of a cluster; the word wraps at 16 bits. false where the table is full, which ends
  -- the call with what was counted so far.
  unfoldable pub width_loop : ℕ → ℕ → List PcosModule → Bool × List PcosModule
  width_loop zero x mods = (Bool.true, mods)
  width_loop (suc k) x mods =
      elim (enter pcos_addr max_pcos_mods (bits.addr x) (fresh_pcos (bits.addr x)) mods) [
        | none ↦ (Bool.false, mods)
        | some (i, mods') ↦ width_loop k ((x + 2) % 65536) (elim (bits.half x) [
          | Bool.true ↦ mods'
          | Bool.false ↦ change_at i (hit_pcos (bits.ch x)) mods'
        ])
      ]

  -- `while(len>0){ ... }`
  unfoldable pub pcos_words : List ℕ → ℕ → List PcosModule → List PcosModule
  pcos_words [] w mods = mods
  pcos_words (x ∷ xs) w mods = elim (bits.hdr x) [
    | Bool.true ↦ elim (bits.delim x) [
      | Bool.true ↦ pcos_words xs w mods
      | Bool.false ↦ pcos_words xs (bits.width x) mods
    ]
    | Bool.false ↦
        let (room, mods') = width_loop w ((x + 65537 - w % 65536) % 65536) mods in
        elim room [ Bool.true ↦ pcos_words xs 1 mods' | Bool.false ↦ mods' ]
  ]

  unfoldable pub check_pcos : Memory → ℕ → ℕ → Pcos → Pcos
  check_pcos mem ptr len s = record {
    mods = pcos_words (words mem ptr len) 1 s.mods;
    raw = keep_raw max_pcos_dat (words mem ptr len) s.raw;
  }

-- The addresses and the counts of hits are exchanged.
abbrev pub swap_pcos : PcosModule → PcosModule → PcosModule × PcosModule
swap_pcos a b =
    (record a { addr = b.addr; nhit = b.nhit }, record b { addr = a.addr; nhit = a.nhit })

abbrev pub clear_pcos : PcosModule → PcosModule
clear_pcos m = record m { hit = λ ch. 0 }

unfoldable pub check_pcos_init : Pcos → Pcos
check_pcos_init s = record {
  mods = bubble_sort pcos_addr swap_pcos (map clear_pcos s.mods);
  raw = [];
}

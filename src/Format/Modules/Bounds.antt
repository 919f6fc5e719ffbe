-- ===== src/Format/Modules/Bounds.antt =====
-- Nothing is written beyond the arrays of src/router/tools/check_format_lib.c that hold modules and words.
use udaq.Base.{
  ℕ, zero, suc, ◌+◌, ◌-◌, ◌%◌, ◌≤◌, ◌≡◌, refl, List, [], ◌∷◌, ◌++◌, length, length-append, Option,
  none, some, ltb, leb, inl, inr, Bool-cases, Option-cases, if-either, arith,
}
use udaq.Format.{Memory, words}
use udaq.Format.Modules.{keep_raw}
use udaq.Format.Modules.Tables.{IsTable, enter-IsTable, change_at-IsTable}
use udaq.Format.Modules.Resort.{bubble_sort-IsTable}
use udaq.Format.Modules.Fera.{
  Fera, FeraBits, FeraModule, fera_id, max_fera_mods, max_fera_dat, fera_words, check_fera,
  swap_fera, clear_fera, check_fera_init, no_data,
}
use udaq.Format.Modules.Lr3377.{
  Lr3377, Lr3377Bits, Lr3377Module, lr3377_id, max_3377_mods, max_3377_dat, fresh_3377,
  lr3377_words, check_lr3377, swap_3377, clear_3377, check_lr3377_init,
}
use udaq.Format.Modules.Pcos.{
  Pcos, PcosBits, PcosModule, pcos_addr, max_pcos_mods, max_pcos_dat, fresh_pcos, hit_pcos,
  width_loop, pcos_words, check_pcos, swap_pcos, clear_pcos, check_pcos_init,
}
use udaq.Format.Modules.Inpreg.{
  Inpreg, max_inpreg_mods, max_inpreg_dat, inpreg_words, check_inpreg, show_inpreg,
}

keep_raw-bounds :
    (limit : ℕ) (ws dat : List ℕ) → length dat ≤ limit → length (keep_raw limit ws dat) ≤ limit
unfolding keep_raw
keep_raw-bounds limit [] dat h = h
keep_raw-bounds limit (w ∷ ws) dat h = elim (Bool-cases (ltb (length dat) limit)) [
  | inl e ↦
      rw (e, keep_raw)
        (keep_raw-bounds limit ws (dat ++ w ∷ []) (ground (arith, length-append dat (w ∷ []), e)))
  | inr e ↦ rw (e, keep_raw) h
]

-- The array of modules and the array of words are within their sizes, and no module stands twice.
abbrev pub IsFera : Fera → Type 0
IsFera s = IsTable fera_id max_fera_mods s.mods × (length s.raw ≤ max_fera_dat)

abbrev pub IsLr3377 : Lr3377 → Type 0
IsLr3377 s = IsTable lr3377_id max_3377_mods s.mods × (length s.raw ≤ max_3377_dat)

abbrev pub IsPcos : Pcos → Type 0
IsPcos s = IsTable pcos_addr max_pcos_mods s.mods × (length s.raw ≤ max_pcos_dat)

abbrev pub IsInpreg : Inpreg → Type 0
IsInpreg s =
    (s.cinpreg ≤ max_inpreg_mods) × (s.ninpreg ≤ max_inpreg_mods) × (length s.raw ≤ max_inpreg_dat)

fera_words-id : (bits : FeraBits) (ws : List ℕ) (m : FeraModule) → (fera_words bits ws m).id ≡ m.id
unfolding fera_words
fera_words-id bits [] m = refl
fera_words-id bits (w ∷ ws) m = fera_words-id bits ws _

pub check_fera-IsFera :
    (bits : FeraBits) (mem : Memory) (ptr len : ℕ) (s : Fera)
    → IsFera s
    → IsFera (check_fera bits mem ptr len s)
unfolding check_fera
check_fera-IsFera bits mem ptr len s h =
    let vsn = bits.vsn (mem ptr) in
    let fresh : FeraModule = record { id = vsn; channels = no_data } in
    let raw = keep_raw-bounds max_fera_dat (words mem ptr len) s.raw h.1 in
    elim (enter-IsTable fera_id max_fera_mods fresh s.mods h.0) [
      | inl e ↦ rw (e, check_fera) (h.0, raw)
      | inr (i, ys, e, within, table) ↦
          rw (e, check_fera)
            (
              change_at-IsTable fera_id max_fera_mods i
                  (fera_words bits (words mem (ptr + 1) (len - 1))) ys
                  (fera_words-id bits (words mem (ptr + 1) (len - 1))) table,
              raw,
            )
    ]

pub check_fera_init-IsFera : (s : Fera) → IsFera s → IsFera (check_fera_init s)
unfolding check_fera_init
check_fera_init-IsFera s h = (
  bubble_sort-IsTable fera_id max_fera_mods swap_fera clear_fera (λ x. refl) (λ x y. refl) s.mods
      h.0,
  omega arith,
)

lr3377_words-IsTable :
    (bits : Lr3377Bits) (ws : List ℕ) (at : Option ℕ) (mods : List Lr3377Module)
    → IsTable lr3377_id max_3377_mods mods
    → IsTable lr3377_id max_3377_mods (lr3377_words bits ws at mods)
unfolding lr3377_words
lr3377_words-IsTable bits [] at mods h = h
lr3377_words-IsTable bits (w ∷ ws) at mods h = elim (Bool-cases (bits.hdr w)) [
  | inl e ↦ elim (enter-IsTable lr3377_id max_3377_mods (fresh_3377 (bits.vsn w)) mods h) [
    | inl f ↦ rw (e, lr3377_words) (rw f h)
    | inr (i, ys, f, within, table) ↦
        rw (e, lr3377_words)
          (rw f (
            lr3377_words-IsTable bits ws (some i) _
              (change_at-IsTable lr3377_id max_3377_mods i _ ys (λ x. refl) table)))
  ]
  | inr e ↦ elim (Option-cases at) [
    | inl f ↦ rw (e, f, lr3377_words) (lr3377_words-IsTable bits ws none mods h)
    | inr (i, f) ↦
        rw (e, f, lr3377_words)
          (lr3377_words-IsTable bits ws (some i) _
            (change_at-IsTable lr3377_id max_3377_mods i _ mods (λ x. refl) h))
  ]
]

pub check_lr3377-IsLr3377 :
    (bits : Lr3377Bits) (mem : Memory) (ptr len : ℕ) (s : Lr3377)
    → IsLr3377 s
    → IsLr3377 (check_lr3377 bits mem ptr len s)
unfolding check_lr3377
check_lr3377-IsLr3377 bits mem ptr len s h = (
  lr3377_words-IsTable bits (words mem ptr len) none s.mods h.0,
  keep_raw-bounds max_3377_dat (words mem ptr len) s.raw h.1,
)

pub check_lr3377_init-IsLr3377 : (s : Lr3377) → IsLr3377 s → IsLr3377 (check_lr3377_init s)
unfolding check_lr3377_init
check_lr3377_init-IsLr3377 s h = (
  bubble_sort-IsTable lr3377_id max_3377_mods swap_3377 clear_3377 (λ x. refl) (λ x y. refl) s.mods
      h.0,
  omega arith,
)

width_loop-IsTable :
    (bits : PcosBits) (k x : ℕ) (mods : List PcosModule)
    → IsTable pcos_addr max_pcos_mods mods
    → IsTable pcos_addr max_pcos_mods ((width_loop bits k x mods).1)
unfolding width_loop
width_loop-IsTable bits zero x mods h = h
width_loop-IsTable bits (suc k) x mods h =
    elim (enter-IsTable pcos_addr max_pcos_mods (fresh_pcos (bits.addr x)) mods h) [
      | inl e ↦ rw (e, width_loop) h
      | inr (i, ys, e, within, table) ↦ elim (Bool-cases (bits.half x)) [
        | inl f ↦ rw (e, width_loop) (rw f (width_loop-IsTable bits k _ ys table))
        | inr f ↦
            let hit =
              change_at-IsTable pcos_addr max_pcos_mods i (hit_pcos (bits.ch x)) ys (λ m. refl)
                table in
            rw (e, width_loop) (rw f (width_loop-IsTable bits k _ _ hit))
      ]
    ]

pcos_words-IsTable :
    (bits : PcosBits) (xs : List ℕ) (w : ℕ) (mods : List PcosModule)
    → IsTable pcos_addr max_pcos_mods mods
    → IsTable pcos_addr max_pcos_mods (pcos_words bits xs w mods)
unfolding pcos_words
pcos_words-IsTable bits [] w mods h = h
pcos_words-IsTable bits (x ∷ xs) w mods h = elim (Bool-cases (bits.hdr x)) [
  | inl e ↦ elim (Bool-cases (bits.delim x)) [
    | inl f ↦ rw (e, pcos_words) (rw f (pcos_words-IsTable bits xs w mods h))
    | inr f ↦ rw (e, pcos_words) (rw f (pcos_words-IsTable bits xs (bits.width x) mods h))
  ]
  | inr e ↦
      let y = (x + 65537 - w % 65536) % 65536 in
      let table = width_loop-IsTable bits w y mods h in
      elim (Bool-cases ((width_loop bits w y mods).0)) [
        | inl f ↦ rw (e, pcos_words) (rw f (pcos_words-IsTable bits xs 1 _ table))
        | inr f ↦ rw (e, pcos_words) (rw f table)
      ]
]

pub check_pcos-IsPcos :
    (bits : PcosBits) (mem : Memory) (ptr len : ℕ) (s : Pcos)
    → IsPcos s
    → IsPcos (check_pcos bits mem ptr len s)
unfolding check_pcos
check_pcos-IsPcos bits mem ptr len s h = (
  pcos_words-IsTable bits (words mem ptr len) 1 s.mods h.0,
  keep_raw-bounds max_pcos_dat (words mem ptr len) s.raw h.1,
)

pub check_pcos_init-IsPcos : (s : Pcos) → IsPcos s → IsPcos (check_pcos_init s)
unfolding check_pcos_init
check_pcos_init-IsPcos s h = (
  bubble_sort-IsTable pcos_addr max_pcos_mods swap_pcos clear_pcos (λ x. refl) (λ x y. refl) s.mods
      h.0,
  omega arith,
)

inpreg_words-IsInpreg : (ws : List ℕ) (s : Inpreg) → IsInpreg s → IsInpreg (inpreg_words ws s)
unfolding inpreg_words
inpreg_words-IsInpreg [] s h = h
inpreg_words-IsInpreg (w ∷ ws) s h = elim (Bool-cases (leb max_inpreg_mods s.cinpreg)) [
  | inl e ↦ rw (e, inpreg_words) h
  | inr e ↦
      let room : s.cinpreg + 1 ≤ max_inpreg_mods = ground (arith, e) in
      rw (e, inpreg_words) (inpreg_words-IsInpreg ws _ (room, room, h.2))
]

pub check_inpreg-IsInpreg :
    (mem : Memory) (ptr len : ℕ) (s : Inpreg) → IsInpreg s → IsInpreg (check_inpreg mem ptr len s)
unfolding check_inpreg
check_inpreg-IsInpreg mem ptr len s h =
    inpreg_words-IsInpreg (words mem ptr len) _
      (h.0, h.1, keep_raw-bounds max_inpreg_dat (words mem ptr len) s.raw h.2)

pub show_inpreg-IsInpreg :
    (show_itvl : ℕ) (s : Inpreg) → IsInpreg s → IsInpreg (show_inpreg show_itvl s)
unfolding show_inpreg
show_inpreg-IsInpreg show_itvl s h = if-either IsInpreg (ltb (s.show_count + 1) show_itvl) h h

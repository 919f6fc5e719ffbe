-- ===== src/Format/Encode.antt =====
-- The data format of src/router/tools/mtformat.h as a tree, and the words that stand for a tree.
use udaq.Base.{
  ℕ, zero, suc, refl, ◌+◌, ◌*◌, ◌/◌, ◌%◌, ◌≤◌, ◌<◌, ◌≡◌, List, [], ◌∷◌, ◌++◌, length, All, arith,
  ◌==◌, if◌then◌else◌,
}
use mathlib.Core.Path.{subst}
use udaq.Format.{Memory, words}
use udaq.Format.Counters.{cnt_num_blks, cnt_num_evts, cnt_num_flds, cnt_num_rgns, cnt_num_rgn_0}

pub record Region : Type 0 where
  pub rgn_id : ℕ
  pub content : List ℕ

pub record Field : Type 0 where
  pub field_id : ℕ
  pub regions : List Region

pub record Event : Type 0 where
  pub event_id : ℕ
  pub fields : List Field

pub record Block : Type 0 where
  pub block_id : ℕ
  pub block_number : ℕ
  pub events : List Event

abbrev pub region_words : Region → List ℕ
region_words r = (4096 * r.rgn_id + length r.content) ∷ r.content

abbrev pub regions_words : List Region → List ℕ
regions_words [] = []
regions_words (r ∷ rs) = region_words r ++ regions_words rs

abbrev pub field_words : Field → List ℕ
field_words f = 65487 ∷ 4 ∷ f.field_id ∷ length (regions_words f.regions) ∷ regions_words f.regions

abbrev pub fields_words : List Field → List ℕ
fields_words [] = []
fields_words (f ∷ fs) = field_words f ++ fields_words fs

-- The event with the number `n`.
abbrev pub event_words : ℕ → Event → List ℕ
event_words n e =
    65503
    ∷ 6
    ∷ e.event_id
    ∷ length (fields_words e.fields)
    ∷ n
    ∷ length e.fields
    ∷ fields_words e.fields

abbrev pub events_words : ℕ → List Event → List ℕ
events_words n [] = []
events_words n (e ∷ es) = event_words n e ++ events_words (n + 1) es

-- The size of a block behind its header.
abbrev pub block_size : Block → ℕ
block_size b = length (events_words 0 b.events) + 2

abbrev pub block_words : Block → List ℕ
block_words b =
    65535
    ∷ 8
    ∷ b.block_id
    ∷ 65520
    ∷ b.block_number
    ∷ length b.events
    ∷ block_size b % 65536
    ∷ block_size b / 65536
    ∷ (events_words 0 b.events ++ 65519 ∷ 2 ∷ [])

abbrev pub IsRegion : Region → Type 0
IsRegion r = (0 < r.rgn_id) × (r.rgn_id < 16) × (length r.content < 4096)

abbrev pub IsField : Field → Type 0
IsField f = (f.field_id < 8) × All IsRegion f.regions

abbrev pub IsEvent : Event → Type 0
IsEvent e = (e.event_id ≤ 1) × All IsField e.fields

-- A data block of one of the crates.
abbrev pub IsBlock : Block → Type 0
IsBlock b = (b.block_id < 8) × (block_size b < 2147483648) × All IsEvent b.events

-- The words stand in the memory from `p` on.
abbrev pub Holds : Memory → ℕ → List ℕ → Type 0
Holds mem p [] = Unit {0}
Holds mem p (w ∷ ws) = (mem p ≡ w) × Holds mem (p + 1) ws

abbrev pub hits : ℕ → ℕ → ℕ
hits i j = if j == i then 1 else 0

-- How often each counter counts something of a tree.
abbrev pub region_tally : Region → ℕ → ℕ
region_tally r j = hits cnt_num_rgns j + hits (cnt_num_rgn_0 + r.rgn_id) j

abbrev pub regions_tally : List Region → ℕ → ℕ
regions_tally [] j = 0
regions_tally (r ∷ rs) j = region_tally r j + regions_tally rs j

abbrev pub fields_tally : List Field → ℕ → ℕ
fields_tally [] j = 0
fields_tally (f ∷ fs) j = hits cnt_num_flds j + regions_tally f.regions j + fields_tally fs j

abbrev pub events_tally : List Event → ℕ → ℕ
events_tally [] j = 0
events_tally (e ∷ es) j = hits cnt_num_evts j + fields_tally e.fields j + events_tally es j

abbrev pub block_tally : Block → ℕ → ℕ
block_tally b j = hits cnt_num_blks j + events_tally b.events j

pub Holds-at : (mem : Memory) (ws : List ℕ) (p q : ℕ) → p ≡ q → Holds mem p ws → Holds mem q ws
Holds-at mem ws p q e h = subst (λ k. Holds mem k ws) e h

pub Holds-append :
    (mem : Memory) (p : ℕ) (us vs : List ℕ)
    → Holds mem p (us ++ vs)
    → Holds mem p us × Holds mem (p + length us) vs
Holds-append mem p [] vs h = (tt, Holds-at mem vs p (p + 0) (omega arith) h)
Holds-append mem p (u ∷ us) vs h =
    let t = Holds-append mem (p + 1) us vs h.1 in
    ((h.0, t.0), Holds-at mem vs (p + 1 + length us) (p + suc (length us)) (omega arith) t.1)

pub Holds-join :
    (mem : Memory) (p : ℕ) (us vs : List ℕ)
    → Holds mem p us
    → Holds mem (p + length us) vs
    → Holds mem p (us ++ vs)
Holds-join mem p [] vs h k = Holds-at mem vs (p + 0) p (omega arith) k
Holds-join mem p (u ∷ us) vs h k = (
  h.0,
  Holds-join mem (p + 1) us vs h.1
      (Holds-at mem vs (p + suc (length us)) (p + 1 + length us) (omega arith) k),
)

pub Holds-words : (mem : Memory) (p n : ℕ) → Holds mem p (words mem p n)
Holds-words mem p zero = tt
Holds-words mem p (suc n) = (refl, Holds-words mem (p + 1) n)

pub length-words : (mem : Memory) (p n : ℕ) → length (words mem p n) ≡ n
length-words mem p zero = refl
length-words mem p (suc n) = omega (arith, length-words mem (p + 1) n)

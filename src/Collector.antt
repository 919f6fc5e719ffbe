-- ===== src/Collector.antt =====
-- The collector of events: the thread collect_data of src/gr/collect_data.c with the commands of
-- src/gr/grcollect.c and the blocks of src/gr/grlib.c. Messages to the user are left out. What the modules
-- on the bus hold at each round is given; what the thread does to them and to the ring is a list.
pub mod Registers
pub mod RunBlocks
pub mod Loop
pub mod Rounds
pub mod Commands
pub mod Overflow
pub mod Format
pub mod Sender
mod Tests
use udaq.Base.{ℕ, zero, suc, ◌+◌, ◌*◌, List, [], ◌∷◌, ltb, if◌then◌else◌}

-- `Lrm`: a memory module on the bus, with its data and how many there are.
pub record Lrm : Type 0 where
  pub mem : ℕ → ℕ
  pub mem_ptr : ℕ

abbrev pub max_lrm_num : ℕ
max_lrm_num = 12

-- `for(i=0;i<n;i++) buf[i] = lrm->mem[2*i];`
unfoldable pub even_words : ℕ → ℕ → (ℕ → ℕ) → List ℕ
even_words zero i mem = []
even_words (suc n) i mem = mem (2 * i) ∷ even_words n (i + 1) mem

-- The result of `lrm_get2`.
abbrev pub lrm_word : ℕ → Lrm → ℕ
lrm_word size lrm = if ltb lrm.mem_ptr size then lrm.mem_ptr else size

unfoldable pub lrm_get2 : ℕ → Lrm → List ℕ
lrm_get2 size lrm = even_words (lrm_word size lrm) 0 lrm.mem

abbrev pub zeros : ℕ → List ℕ
zeros zero = []
zeros (suc n) = 0 ∷ zeros n

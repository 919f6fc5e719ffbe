-- ===== src/Acquisition.antt =====
-- The reading of modules in src/vmedaq/vmedaq.c, on its machine with 32-bit `long` and the low byte first. What a module
-- gives is a list of words.
pub mod Adc
mod Tests
use udaq.Base.{ℕ, zero, suc, ◌+◌, ◌*◌, ◌%◌, List, [], ◌∷◌}

-- `VMEDAQ_HEADER_ID`
abbrev pub vmedaq_header_id : ℕ
vmedaq_header_id = 1145392470

-- `vmedaq_write_header`: the words of the header, with the number of the block.
abbrev pub vmedaq_write_header : ℕ → ℕ → ℕ → List ℕ
vmedaq_write_header type counter size = vmedaq_header_id ∷ type ∷ counter ∷ size ∷ []

-- The word `i` of a list is `w`.
abbrev pub set_word : ℕ → ℕ → List ℕ → List ℕ
set_word i w [] = []
set_word zero w (x ∷ xs) = w ∷ xs
set_word (suc i) w (x ∷ xs) = x ∷ set_word i w xs

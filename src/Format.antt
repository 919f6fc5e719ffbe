-- ===== src/Format.antt =====
-- The check of the data format: src/router/tools/check_format_lib.c, with the structures of
-- src/router/tools/mtformat.h. Messages to the user and dumps are left out. A pointer is the position of a
-- 16-bit word in a memory, which is a function as the code reads words where nothing was received.
pub mod Counters
pub mod Modules
pub mod State
pub mod Regions
pub mod Fields
pub mod Events
pub mod Block
pub mod Encode
pub mod Ticks
pub mod Search
pub mod Keeps
mod Tests
use udaq.Base.{ℕ, zero, suc, ◌+◌, List, [], ◌∷◌, ◌==◌, if◌then◌else◌, Bool, true, false}

-- What the words at the positions are.
abbrev pub Memory : Type 0
Memory = ℕ → ℕ

-- `n` words from `p` on.
abbrev pub words : Memory → ℕ → ℕ → List ℕ
words mem p zero = []
words mem p (suc n) = mem p ∷ words mem (p + 1) n

-- `a[i] = v`
abbrev pub put_at {ℓ} : {A : Type ℓ} → ℕ → A → (ℕ → A) → ℕ → A
put_at i v a j = if j == i then v else a j

-- `while(ptr < te){ if(...) break; ptr++; }`, with `n` words left.
unfoldable pub search_word : (ℕ → Bool) → Memory → ℕ → ℕ → ℕ
search_word stops mem zero p = p
search_word stops mem (suc n) p =
    let rest = search_word stops mem n (p + 1) in if stops (mem p) then p else rest

abbrev pub count_if : Bool → ℕ
count_if true = 1
count_if false = 0

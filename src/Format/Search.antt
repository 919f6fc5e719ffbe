-- ===== src/Format/Search.antt =====
-- Where the searches of src/router/tools/check_format_lib.c for a header end.
use udaq.Base.{ℕ, zero, suc, ◌+◌, ◌≤◌, ◌<◌, ◌≡◌, Bool, true, inl, inr, Bool-cases, arith}
use udaq.Format.{Memory, search_word}

-- The search does not go back, and it ends at a word that it looks for or behind the last word.
pub search_word-stops :
    (stops : ℕ → Bool) (mem : Memory) (n p : ℕ)
    → let q = search_word stops mem n p in (p ≤ q) × (q < p + n → stops (mem q) ≡ true)
unfolding search_word
search_word-stops stops mem zero p = (omega arith, λ h. absurd (omega (arith, h)))
search_word-stops stops mem (suc n) p = elim (Bool-cases (stops (mem p))) [
  | inl e ↦ rw (e, search_word) (omega arith, λ h. e)
  | inr e ↦
      let (a, b) = search_word-stops stops mem n (p + 1) in
      rw (e, search_word) (omega (arith, a), λ h. b (omega (arith, h)))
]

-- ===== src/Recorder/Assign.antt =====
-- The kind of a block: src/router/tools/assign_j11.c, on a machine with the low byte first.
use udaq.Base.{
  ℕ, zero, suc, ◌+◌, ◌*◌, ◌/◌, ◌%◌, ◌≡◌, ◌≢◌, refl, false, ◌||◌, not, List, ◌∷◌, length, ltb, leb,
  if-either, ◌==◌, if◌then◌else◌, arith,
}

pub data Kind : Type 0 where
  blk_unknown blk_start blk_end blk_middle blk_data blk_scaler : Kind

-- The word `i` of a buffer of bytes.
abbrev pub word_at : ℕ → List ℕ → ℕ
word_at zero (a ∷ b ∷ cs) = a + 256 * b
word_at (suc i) (a ∷ b ∷ cs) = word_at i cs
word_at i _ = 0

-- `ver`, an `unsigned int` of a 16-bit version, whose halves are exchanged.
abbrev pub swap_halves : ℕ → ℕ
swap_halves ver = ver % 65536 * 65536 + ver / 65536 % 65536

-- A block with a comment, of 70 words.
unfoldable pub with_comment : List ℕ → Kind → Kind
with_comment buf kind =
    let at = word_at 1 buf in
    if ltb (length buf / 2) (at + 70)
    then blk_unknown
    else if swap_halves (word_at at buf % 65536) == 1024
    then kind
    else blk_unknown

unfoldable pub assign_j11 : List ℕ → Kind
assign_j11 buf =
    if ltb (length buf) 40
      || not (word_at 0 buf == 65535)
      || ltb (word_at 1 buf) 6
      || ltb 8 (word_at 1 buf)
    then blk_unknown
    else if leb (word_at 2 buf) 7
    then blk_data
    else if word_at 2 buf == 3584
    then blk_scaler
    else if word_at 2 buf == 3841
    then with_comment buf blk_start
    else if word_at 2 buf == 3842
    then with_comment buf blk_end
    else if word_at 2 buf == 3843
    then blk_middle
    else blk_unknown

swapped_ne : (v : ℕ) → (swap_halves (v % 65536) == 1024) ≡ false
swapped_ne v = ground arith

with_comment_lem : (buf : List ℕ) (kind : Kind) → with_comment buf kind ≡ blk_unknown
unfolding with_comment
with_comment_lem buf kind =
    rw (swapped_ne (word_at (word_at 1 buf) buf))
      (if-either (λ k. k ≡ blk_unknown) (ltb (length buf / 2) (word_at 1 buf + 70)) refl refl)

-- No block is taken for the start or the end of a run, whatever is in it: the halves of the version are exchanged though
-- it is a 16-bit number, so it never fits.
pub assign_j11-ne : (buf : List ℕ) → (assign_j11 buf ≢ blk_start) × (assign_j11 buf ≢ blk_end)
unfolding assign_j11
assign_j11-ne buf =
    let a = with_comment_lem buf blk_start in
    let b = with_comment_lem buf blk_end in
    ((λ e. ground (arith, a, b, e)), (λ e. ground (arith, a, b, e)))

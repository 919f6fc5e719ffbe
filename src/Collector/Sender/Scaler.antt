-- ===== src/Collector/Sender/Scaler.antt =====
-- The block that src/gr/collect_tcp.c makes of the words of the scaler, in the format of mtformat.h.
use udaq.Base.{
  ℕ, ◌+◌, ◌*◌, ◌%◌, ◌≡◌, refl, sym, ap, ◌∙◌, List, [], ◌∷◌, ◌++◌, length, length-append, arith,
}
use mathlib.Core.List.{append_assoc, append-nil}
use udaq.Format.Encode.{Region, Event, regions_words, event_words}
use udaq.Transfer.{take, drop}
use udaq.Collector.Sender.{sum_words, encode_scl_blk}

abbrev pub total : List ℕ → ℕ
total [] = 0
total (w ∷ ws) = w + total ws

sum_words_lem : (sum : ℕ) (ws : List ℕ) → sum_words (sum % 65536) ws ≡ (sum + total ws) % 65536
unfolding sum_words
sum_words_lem sum [] = let e : sum + 0 ≡ sum = omega arith in ap (λ n. n % 65536) (sym e)
sum_words_lem sum (w ∷ ws) =
    let a : (sum % 65536 + w) % 65536 ≡ (sum + w) % 65536 = omega arith in
    let b : sum + w + total ws ≡ sum + (w + total ws) = omega arith in
    ap (λ n. sum_words n ws) a ∙ sum_words_lem (sum + w) ws ∙ ap (λ n. n % 65536) b

-- The event of a block of the scaler: an input register that tells the end of the block, the regions of the scaler, and
-- a region with the sum of their words.
abbrev pub scaler_event : List Region → Event
scaler_event rs = record {
  event_id = 1;
  fields =
      record {
        field_id = 0;
        regions =
            record { rgn_id = 2; content = 32768 ∷ [] }
            ∷ (rs
                ++ record { rgn_id = 15; content = (total (regions_words rs) % 65536) ∷ [] } ∷ []);
      }
      ∷ [];
}

regions-append :
    (rs qs : List Region) → regions_words (rs ++ qs) ≡ regions_words rs ++ regions_words qs
regions-append [] qs = refl
regions-append (r ∷ rs) qs =
    ap (λ u. ((4096 * r.rgn_id + length r.content) ∷ r.content) ++ u) (regions-append rs qs)
    ∙ sym (
        append_assoc ((4096 * r.rgn_id + length r.content) ∷ r.content) (regions_words rs)
          (regions_words qs))

-- Where the 132 words of the scaler are regions of the format, the buffer begins with a block of one event with one
-- field, whose sizes are those of what stands in it and whose last region has the sum of the words of
-- the scaler modulo 2^16.
pub encode_scl_blk-event :
    (buf : List ℕ) (cnt : ℕ) (rs : List Region)
    → take 132 buf ≡ regions_words rs
    → length (regions_words rs) ≡ 132
    → encode_scl_blk buf cnt
      ≡ 65535
        ∷ 6
        ∷ 3584
        ∷ (length (event_words 331 (scaler_event rs)) + 2)
        ∷ cnt
        ∷ 1
        ∷ (event_words 331 (scaler_event rs) ++ (65519 ∷ 2 ∷ drop 154 buf))
unfolding encode_scl_blk
encode_scl_blk-event buf cnt rs e n =
    let words = regions_words rs in
    let s : ℕ = total words % 65536 in
    let whole : regions_words (rs ++ record { rgn_id = 15; content = s ∷ [] } ∷ [])
        ≡ words ++ (61441 ∷ s ∷ []) =
      regions-append rs (record { rgn_id = 15; content = s ∷ [] } ∷ []) in
    let zero_front : 0 + total words ≡ total words = omega arith in
    let sum : sum_words 0 words ≡ s = sum_words_lem 0 words ∙ ap (λ k. k % 65536) zero_front in
    let long : length (words ++ (61441 ∷ s ∷ [])) ≡ 134 =
      omega (arith, length-append words (61441 ∷ s ∷ []), n) in
    rw
      (
        e,
        sum,
        whole,
        append-nil (words ++ (61441 ∷ s ∷ [])),
        long,
        append_assoc words (61441 ∷ s ∷ []) (65519 ∷ 2 ∷ drop 154 buf),
      )
      refl

-- ===== src/Acquisition/Adc/Bounds.antt =====
-- The size of the block that madc32_check_data of src/vmedaq/vmedaq.c makes.
use udaq.Base.{
  ℕ, zero, suc, ◌+◌, ◌-◌, ◌≤◌, ◌<◌, ◌≡◌, refl, true, not, ◌&&◌, Option, none, some, List, [], ◌∷◌,
  ◌++◌, length, length-append, leb, ◌==◌, Bool-cases, Option-cases, inl, inr, if-either, arith,
}
use udaq.Acquisition.{set_word}
use udaq.Acquisition.Adc.{
  Adc, set_word_at, signature_of, header_case, data_case, end_case, read_word, read_words,
  close_event, fill_word, start, with_header, madc32_check_data, position_of, made_header, made_end,
  no_end_of_event, word_at,
}

length-set_word : (i w : ℕ) (ws : List ℕ) → length (set_word i w ws) ≡ length ws
length-set_word i w [] = refl
length-set_word zero w (x ∷ ws) = refl
length-set_word (suc i) w (x ∷ ws) = omega (arith, length-set_word i w ws)

length-set_word_at : (o : Option ℕ) (w : ℕ) (ws : List ℕ) → length (set_word_at o w ws) ≡ length ws
length-set_word_at none w ws = refl
length-set_word_at (some i) w ws = length-set_word i w ws

-- A word makes the data longer by at most two, and by at most one where a header is open.
abbrev Grows : Adc → Adc → Type 0
Grows s t =
    (length t.body ≤ length s.body + 2) × (t.header_flag ≡ true → length t.body ≤ length s.body + 1)

module _ (mid res : ℕ) where
  header_case-Grows : (w : ℕ) (s : Adc) → Grows s (header_case mid res w s)
  header_case-Grows w s =
      let n = length-append s.body (w ∷ []) in (omega (arith, n), λ h. omega (arith, n))

  data_case-Grows : (w : ℕ) (s : Adc) → Grows s (data_case mid res w s)
  data_case-Grows w s =
      let n = length-append s.body (w ∷ []) in
      let m = length-append s.body (w ∷ w ∷ []) in ground arith

  end_case-Grows : (w : ℕ) (s : Adc) → Grows s (end_case mid res w s)
  end_case-Grows w s =
      let n = length-append s.body (w ∷ []) in
      let k = length (s.body ++ w ∷ []) - position_of s.header_pos - 1 in
      let m = length-set_word_at s.header_pos (made_header k res mid) (s.body ++ w ∷ []) in
      ground arith

  read_word-Grows : (w : ℕ) (s : Adc) → Grows s (read_word mid res w s)
  unfolding read_word
  read_word-Grows w s = if-either (Grows s) (signature_of w == 1) (header_case-Grows w s) (
      if-either (Grows s) (signature_of w == 0) (data_case-Grows w s) (
        if-either (Grows s) (signature_of w == 3) (end_case-Grows w s)
          (let n = length-append s.body (w ∷ []) in (omega (arith, n), λ h. omega (arith, n)))))

module _ (mid res buf_size : ℕ) where
  -- The data go at most a word beyond the buffer, and stay in it where a header is open.
  abbrev IsNear : Adc → Type 0
  IsNear s =
      (4 + length s.body ≤ buf_size + 1) × (s.header_flag ≡ true → 4 + length s.body ≤ buf_size)

  grown-IsNear : (s t : Adc) → Grows s t → 4 + length s.body < buf_size → IsNear t
  grown-IsNear s t (g, h) room =
      (omega (arith, g, room), λ f. let k = h f in omega (arith, k, room))

  read_words-IsNear :
      (ws : List ℕ) (s : Adc)
      → 4 + length s.body < buf_size
      → IsNear (read_words mid res buf_size ws s)
  unfolding read_words
  read_words-IsNear [] s room = (omega (arith, room), λ f. omega (arith, room))
  read_words-IsNear (w ∷ ws) s room =
      let t = read_word mid res w s in
      elim (Bool-cases (leb buf_size (4 + length t.body))) [
        | inl e ↦ rw (e, read_words) (grown-IsNear s t (read_word-Grows mid res w s) room)
        | inr e ↦ rw (e, read_words) (read_words-IsNear ws t (ground arith))
      ]

  close_event-length : (s : Adc) → IsNear s → 4 + length (close_event mid res s).body ≤ buf_size + 1
  unfolding close_event
  close_event-length s h =
      let w = no_end_of_event (word_at s.header_pos s.body) in
      let made = made_end (s.counters mid + 1) in
      let n = length-append s.body (made ∷ []) in
      let m = length-set_word_at s.header_pos w (s.body ++ made ∷ []) in
      elim (Bool-cases s.header_flag) [
        | inr e ↦ rw (e, close_event) h.0
        | inl e ↦
            let k = h.1 e in
            if-either (λ (u : Adc). 4 + length u.body ≤ buf_size + 1)
              (s.header_flag && not s.end_of_event_flag) (omega (arith, n, m, k)) h.0
      ]

  fill_word-length : (ws : List ℕ) → length (fill_word mid res ws) ≤ length ws + 1
  unfolding fill_word
  fill_word-length ws = let n = length-append ws (0 ∷ []) in ground arith

  with_header-length :
      (block_counter : ℕ) (s : Adc)
      → 4 + length s.body ≤ buf_size + 1
      → length (with_header mid res block_counter s).0 ≤ buf_size + 2
  unfolding with_header
  with_header-length block_counter s h =
      let f = fill_word-length s.body in
      elim (Option-cases s.event_count) [
        | inl e ↦ rw (e, with_header) (omega arith)
        | inr (n, e) ↦ rw (e, with_header) (omega (arith, f, h))
      ]

  -- Whatever the FIFO gives, the block goes at most two words beyond a buffer with room for more than the header.
  pub madc32_check_data-length :
      (block_counter : ℕ) (fifo : List ℕ) (counters : ℕ → ℕ)
      → 4 < buf_size
      → length (madc32_check_data mid res buf_size block_counter fifo counters).0 ≤ buf_size + 2
  unfolding madc32_check_data
  madc32_check_data-length block_counter fifo counters room =
      let s = read_words mid res buf_size fifo (start mid res counters) in
      with_header-length block_counter (close_event mid res s) (
        close_event-length s
          (read_words-IsNear fifo (start mid res counters) (omega (arith, room))))

-- ===== src/Acquisition/Adc/Repair.antt =====
-- The header that madc32_check_data of src/vmedaq/vmedaq.c makes for an event that has none.
use udaq.Base.{
  ℕ, suc, ◌+◌, ◌-◌, ◌*◌, ◌<◌, ◌≡◌, refl, ap, ◌∙◌, true, some, List, [], ◌∷◌, ◌++◌, length,
  length-append, All, arith,
}
use udaq.Acquisition.{vmedaq_write_header}
use udaq.Acquisition.Adc.{
  Adc, signature_of, event_counter_of, made_header, data_case, end_case, read_word, read_words,
  fill_word, start, madc32_check_data,
}
use udaq.Acquisition.Adc.Events.{
  IsData, with_words, read_words-cons, read_words-data, read_word-data, read_word-end,
}
use udaq.Acquisition.Adc.Blocks.{checked, read_words-none, close_event-ended}

module _ (mid res buf_size : ℕ) where
  -- The state after such an event.
  abbrev headless : ℕ → List ℕ → ℕ → (ℕ → ℕ) → Adc
  headless d ds last counters =
      end_case mid res last (with_words ds (data_case mid res d (start mid res counters)))

  headless-body :
      (d : ℕ) (ds : List ℕ) (last : ℕ) (counters : ℕ → ℕ)
      → (headless d ds last counters).body
        ≡ made_header (length ds + 2) res mid ∷ d ∷ (ds ++ last ∷ [])
  headless-body d ds last counters =
      let n : suc (suc (length (ds ++ last ∷ []))) - 0 - 1 ≡ length ds + 2 =
        omega (arith, length-append ds (last ∷ [])) in
      ap (λ (k : ℕ). made_header k res mid ∷ d ∷ (ds ++ last ∷ [])) n

  read_words-headless :
      (d : ℕ) (ds : List ℕ) (last : ℕ) (counters : ℕ → ℕ)
      → All IsData (d ∷ ds)
      → signature_of last ≡ 3
      → 7 + length ds < buf_size
      → read_words mid res buf_size (d ∷ (ds ++ last ∷ [])) (start mid res counters)
        ≡ headless d ds last counters
  read_words-headless d ds last counters h l room =
      let s = data_case mid res d (start mid res counters) in
      let s2 = with_words ds s in
      let one : read_word mid res d (start mid res counters) ≡ s =
        read_word-data mid res buf_size d (start mid res counters) h.0 in
      let ends : read_word mid res last s2 ≡ end_case mid res last s2 =
        read_word-end mid res buf_size last s2 l in
      let n : length (end_case mid res last s2).body ≡ length ds + 3 =
        ap length (headless-body d ds last counters)
        ∙ omega (arith, length-append ds (last ∷ [])) in
      let fits : 4 + length (read_word mid res d (start mid res counters)).body < buf_size =
        rw one (omega (arith, room)) in
      let fits_words : 4 + (length s.body + length ds) < buf_size = omega (arith, room) in
      let fits_last : 4 + length (read_word mid res last s2).body < buf_size =
        rw ends (omega (arith, n, room)) in
      read_words-cons mid res buf_size d (ds ++ last ∷ []) (start mid res counters) fits
      ∙ ap (read_words mid res buf_size (ds ++ last ∷ [])) one
      ∙ read_words-data mid res buf_size ds (last ∷ []) s refl h.1 fits_words
      ∙ read_words-cons mid res buf_size last [] s2 fits_last
      ∙ ap (read_words mid res buf_size []) ends
      ∙ read_words-none mid res buf_size (headless d ds last counters)

  -- Where the FIFO holds at least one data word and an end, without a header, and leaves room in the buffer: the words of
  -- the block are a made header with the number of the words behind it, the words of the FIFO and the filler. The number
  -- of the end is returned, the counter with the number -1 is written, and the counters of the modules stay as they were.
  pub madc32_check_data-headless :
      (block_counter : ℕ) (counters : ℕ → ℕ) (d : ℕ) (ds : List ℕ) (last : ℕ)
      → All IsData (d ∷ ds)
      → signature_of last ≡ 3
      → 7 + length ds < buf_size
      → let (block, s) =
          madc32_check_data mid res buf_size block_counter (d ∷ (ds ++ last ∷ [])) counters in
        let body =
          fill_word mid res (made_header (length ds + 2) res mid ∷ d ∷ (ds ++ last ∷ [])) in
        (block ≡ vmedaq_write_header 4096 block_counter (4 * (4 + length body)) ++ body)
        × (s.event_count ≡ some (event_counter_of last))
        × (s.wild ≡ true)
        × (s.counters ≡ counters)
  madc32_check_data-headless block_counter counters d ds last h l room =
      let s = headless d ds last counters in
      let r =
        checked mid res buf_size block_counter counters (d ∷ (ds ++ last ∷ [])) s s
          (event_counter_of last) (read_words-headless d ds last counters h l room)
          (close_event-ended mid res buf_size s refl) refl in
      (
        ap (λ (r : List ℕ × Adc). r.0) r
            ∙ ap
                (λ (l : List ℕ).
                  vmedaq_write_header 4096 block_counter (4 * (4 + length (fill_word mid res l)))
                  ++ fill_word mid res l)
                (headless-body d ds last counters),
        ap (λ (r : List ℕ × Adc). r.1.event_count) r,
        ap (λ (r : List ℕ × Adc). r.1.wild) r,
        ap (λ (r : List ℕ × Adc). r.1.counters) r,
      )

-- ===== src/Acquisition/Adc/Cut.antt =====
-- What madc32_check_data of src/vmedaq/vmedaq.c makes of an event that is cut off after whole events.
use udaq.Base.{
  ℕ, ◌+◌, ◌*◌, ◌<◌, ◌≡◌, refl, sym, ap, ◌∙◌, true, false, none, some, List, [], ◌∷◌, ◌++◌, length,
  length-append, All, arith,
}
use mathlib.Core.List.{append_assoc, append-nil}
use udaq.Acquisition.{vmedaq_write_header}
use udaq.Acquisition.Adc.{
  Adc, signature_of, event_counter_of, made_end, header_case, read_word, read_words, close_event,
  fill_word, start, madc32_check_data,
}
use udaq.Acquisition.Adc.Events.{
  Event, IsData, IsEvent, event_words, all_words, after_event, after_events, with_words,
  read_words-cons, read_words-data, read_word-header,
}
use udaq.Acquisition.Adc.Blocks.{
  after_events-body, after_events-kept, read_words-fifo, read_words-none, set_counter-same, checked,
}

module _ (mid res buf_size : ℕ) where
  cut_body : (b ws : List ℕ) (h : ℕ) → (b ++ h ∷ []) ++ ws ≡ b ++ h ∷ ws
  cut_body b ws h = append_assoc b (h ∷ []) ws

  -- The state after events, and after the header and the words of an event that is cut off.
  abbrev cut : List Event → Event → ℕ → List ℕ → (ℕ → ℕ) → Adc
  cut es e header ws counters = with_words ws (
      header_case mid res header (after_event mid e (after_events mid es (start mid res counters))))

  read_words-cut :
      (counters : ℕ → ℕ) (es : List Event) (e : Event) (header : ℕ) (ws : List ℕ)
      → All IsEvent es
      → IsEvent e
      → signature_of header ≡ 1
      → All IsData ws
      → 4 + (length (all_words es ++ event_words e) + length (header ∷ ws)) < buf_size
      → read_words mid res buf_size
          (all_words es ++ (event_words e ++ header ∷ ws))
          (start mid res counters)
        ≡ cut es e header ws counters
  read_words-cut counters es e header ws hs h g d room =
      let s = after_event mid e (after_events mid es (start mid res counters)) in
      let b : s.body ≡ all_words es ++ event_words e =
        ap (λ (l : List ℕ). l ++ event_words e)
          (after_events-body mid es (start mid res counters)) in
      let n = length-append s.body (header ∷ []) in
      let one : read_word mid res header s ≡ header_case mid res header s =
        read_word-header mid res buf_size header s g in
      let m : length s.body ≡ length (all_words es ++ event_words e) = ap length b in
      let fits : 4 + length (read_word mid res header s).body < buf_size =
        rw one (omega (arith, n, m, room)) in
      let fits_words : 4 + (length (s.body ++ header ∷ []) + length ws) < buf_size =
        omega (arith, n, m, room) in
      read_words-fifo mid res buf_size es e (header ∷ ws) (start mid res counters) hs h
        (omega (arith, room))
      ∙ read_words-cons mid res buf_size header ws s fits
      ∙ ap (read_words mid res buf_size ws) one
      ∙ ap (λ (l : List ℕ). read_words mid res buf_size l (header_case mid res header s))
          (sym (append-nil ws))
      ∙ read_words-data mid res buf_size ws [] (header_case mid res header s) refl d fits_words
      ∙ read_words-none mid res buf_size (cut es e header ws counters)

  close_event-open :
      (s : Adc)
      → s.header_flag ≡ true
      → s.end_of_event_flag ≡ false
      → s.header_pos ≡ none
      → ((close_event mid res s).body ≡ s.body ++ made_end (s.counters mid + 1) ∷ [])
        × ((close_event mid res s).event_count ≡ s.event_count)
        × ((close_event mid res s).counters mid ≡ s.counters mid + 1)
        × ((close_event mid res s).wild ≡ s.wild)
  unfolding close_event
  close_event-open s h e p =
      rw (h, e, p)
        (refl, refl, set_counter-same mid res buf_size mid (s.counters mid + 1) s.counters, refl)

  -- Where an event that is cut off, a header and data words, follows whole events in the FIFO and all leave room in the
  -- buffer: the words of the block are those of the FIFO, an end with the number after that of the last whole event, and
  -- the filler; the counter of the module is that number, the number that is returned is still the one before, and no
  -- counter with the number -1 is written.
  pub madc32_check_data-cut :
      (block_counter : ℕ) (counters : ℕ → ℕ) (es : List Event) (e : Event) (header : ℕ)
      (ws : List ℕ)
      → All IsEvent es
      → IsEvent e
      → signature_of header ≡ 1
      → All IsData ws
      → 4 + (length (all_words es ++ event_words e) + length (header ∷ ws)) < buf_size
      → let n = event_counter_of e.last in
        let fifo = all_words es ++ (event_words e ++ header ∷ ws) in
        let (block, s) = madc32_check_data mid res buf_size block_counter fifo counters in
        let body = fill_word mid res (fifo ++ made_end (n + 1) ∷ []) in
        (block ≡ vmedaq_write_header 4096 block_counter (4 * (4 + length body)) ++ body)
        × (s.event_count ≡ some n)
        × (s.counters mid ≡ n + 1)
        × (s.wild ≡ false)
  madc32_check_data-cut block_counter counters es e header ws hs h g d room =
      let n = event_counter_of e.last in
      let fifo = all_words es ++ (event_words e ++ header ∷ ws) in
      let s = cut es e header ws counters in
      let kept = after_events-kept mid es (start mid res counters) in
      let (b, c, k, w) = close_event-open s refl refl kept.1 in
      let same : s.counters mid ≡ n =
        set_counter-same mid res buf_size mid n
          (after_events mid es (start mid res counters)).counters in
      let whole : s.body ≡ fifo =
        ap (λ (l : List ℕ). ((l ++ event_words e) ++ header ∷ []) ++ ws)
          (after_events-body mid es (start mid res counters))
        ∙ cut_body (all_words es ++ event_words e) ws header
        ∙ append_assoc (all_words es) (event_words e) (header ∷ ws) in
      let body : (close_event mid res s).body ≡ fifo ++ made_end (n + 1) ∷ [] =
        b
        ∙ ap (λ (l : List ℕ). l ++ made_end (s.counters mid + 1) ∷ []) whole
        ∙ ap (λ (m : ℕ). fifo ++ made_end (m + 1) ∷ []) same in
      let r =
        checked mid res buf_size block_counter counters fifo s (close_event mid res s) n
          (read_words-cut counters es e header ws hs h g d room) refl c in
      (
        ap (λ (r : List ℕ × Adc). r.0) r
            ∙ ap
                (λ (l : List ℕ).
                  vmedaq_write_header 4096 block_counter (4 * (4 + length (fill_word mid res l)))
                  ++ fill_word mid res l)
                body,
        ap (λ (r : List ℕ × Adc). r.1.event_count) r ∙ c,
        ap (λ (r : List ℕ × Adc). r.1.counters mid) r ∙ k ∙ ap (λ (m : ℕ). m + 1) same,
        ap (λ (r : List ℕ × Adc). r.1.wild) r ∙ w ∙ kept.0,
      )

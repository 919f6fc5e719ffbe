-- ===== src/Acquisition/Adc/Events.antt =====
-- Whole events in the FIFO of an ADC, for madc32_check_data of src/vmedaq/vmedaq.c.
use udaq.Base.{
  ℕ, ◌+◌, ◌<◌, ◌≡◌, refl, sym, ap, ◌∙◌, true, false, some, List, [], ◌∷◌, ◌++◌, length,
  length-append, All, not, ◌&&◌, arith,
}
use mathlib.Core.List.{append_assoc, append-nil}
use udaq.Acquisition.Adc.{
  Adc, signature_of, event_counter_of, set_counter, header_case, data_case, end_case, read_word,
  read_words,
}

-- An event: its header, its words, and its end.
pub record Event : Type 0 where
  pub header : ℕ
  pub words : List ℕ
  pub last : ℕ

abbrev pub IsData : ℕ → Type 0
IsData w = signature_of w ≡ 0

abbrev pub IsEvent : Event → Type 0
IsEvent e = (signature_of e.header ≡ 1) × All IsData e.words × (signature_of e.last ≡ 3)

abbrev pub event_words : Event → List ℕ
event_words e = e.header ∷ e.words ++ (e.last ∷ [])

-- More words.
abbrev pub with_words : List ℕ → Adc → Adc
with_words ws s = record s { body = s.body ++ ws }

-- The state after a whole event.
abbrev pub after_event : ℕ → Event → Adc → Adc
after_event mid e s = record {
  body = s.body ++ event_words e;
  header_pos = s.header_pos;
  event_count = some (event_counter_of e.last);
  module_id = some mid;
  header_flag = false;
  no_header_flag = false;
  end_of_event_flag = true;
  counters = set_counter mid (event_counter_of e.last) s.counters;
  wild = s.wild;
}

-- The words and the state after events.
abbrev pub all_words : List Event → List ℕ
all_words [] = []
all_words (e ∷ es) = event_words e ++ all_words es

abbrev pub after_events : ℕ → List Event → Adc → Adc
after_events mid [] s = s
after_events mid (e ∷ es) s = after_events mid es (after_event mid e s)

module _ (mid res buf_size : ℕ) where
  -- A word of the loop that leaves room.
  pub read_words-cons :
      (w : ℕ) (ws : List ℕ) (s : Adc)
      → 4 + length (read_word mid res w s).body < buf_size
      → read_words mid res buf_size (w ∷ ws) s
        ≡ read_words mid res buf_size ws (read_word mid res w s)
  unfolding read_words
  read_words-cons w ws s h = ground arith

  pub read_word-header :
      (w : ℕ) (s : Adc) → signature_of w ≡ 1 → read_word mid res w s ≡ header_case mid res w s
  unfolding read_word
  read_word-header w s h = rw h refl

  pub read_word-data :
      (w : ℕ) (s : Adc) → signature_of w ≡ 0 → read_word mid res w s ≡ data_case mid res w s
  unfolding read_word
  read_word-data w s h = rw h refl

  pub read_word-end :
      (w : ℕ) (s : Adc) → signature_of w ≡ 3 → read_word mid res w s ≡ end_case mid res w s
  unfolding read_word
  read_word-end w s h = rw h refl

  -- The state after data words of an event.
  pub read_words-data :
      (ds rest : List ℕ) (s : Adc)
      → (not s.header_flag && not s.no_header_flag) ≡ false
      → All IsData ds
      → 4 + (length s.body + length ds) < buf_size
      → read_words mid res buf_size (ds ++ rest) s
        ≡ read_words mid res buf_size rest (with_words ds s)
  read_words-data [] rest s f h room =
      ap (λ (b : List ℕ). read_words mid res buf_size rest (record s { body = b }))
        (sym (append-nil s.body))
  read_words-data (d ∷ ds) rest s f h room =
      let n = length-append s.body (d ∷ []) in
      let one : read_word mid res d s ≡ with_words (d ∷ []) s =
        read_word-data d s h.0 ∙ rw f refl in
      let fits : 4 + length (read_word mid res d s).body < buf_size =
        rw one (omega (arith, n, room)) in
      let fits_rest : 4 + (length (s.body ++ d ∷ []) + length ds) < buf_size =
        omega (arith, n, room) in
      read_words-cons d (ds ++ rest) s fits
      ∙ ap (read_words mid res buf_size (ds ++ rest)) one
      ∙ read_words-data ds rest (with_words (d ∷ []) s) f h.1 fits_rest
      ∙ ap (λ (b : List ℕ). read_words mid res buf_size rest (record s { body = b }))
          (append_assoc s.body (d ∷ []) ds)

  length-event_words : (e : Event) → length (event_words e) ≡ length e.words + 2
  length-event_words e = omega (arith, length-append e.words (e.last ∷ []))

  event_body :
      (b : List ℕ) (e : Event)
      → ((b ++ e.header ∷ []) ++ e.words) ++ e.last ∷ [] ≡ b ++ event_words e
  event_body b e =
      append_assoc (b ++ e.header ∷ []) e.words (e.last ∷ [])
      ∙ append_assoc b (e.header ∷ []) (e.words ++ e.last ∷ [])

  pub read_words-event :
      (e : Event) (rest : List ℕ) (s : Adc)
      → IsEvent e
      → 4 + (length s.body + length (event_words e)) < buf_size
      → read_words mid res buf_size (event_words e ++ rest) s
        ≡ read_words mid res buf_size rest (after_event mid e s)
  read_words-event e rest s (h, d, l) room =
      let s1 = header_case mid res e.header s in
      let s2 = with_words e.words s1 in
      let n1 = length-append s.body (e.header ∷ []) in
      let n2 = length-append (s.body ++ e.header ∷ []) e.words in
      let n3 = length-append ((s.body ++ e.header ∷ []) ++ e.words) (e.last ∷ []) in
      let n = length-event_words e in
      let first : read_word mid res e.header s ≡ s1 = read_word-header e.header s h in
      let ends : read_word mid res e.last s2 ≡ end_case mid res e.last s2 =
        read_word-end e.last s2 l in
      let fits1 : 4 + length (read_word mid res e.header s).body < buf_size =
        rw first (omega (arith, n, n1, room)) in
      let fits2 : 4 + (length s1.body + length e.words) < buf_size = omega (arith, n, n1, room) in
      let fits3 : 4 + length (read_word mid res e.last s2).body < buf_size =
        rw ends (omega (arith, n, n1, n2, n3, room)) in
      read_words-cons e.header ((e.words ++ e.last ∷ []) ++ rest) s fits1
      ∙ ap (read_words mid res buf_size ((e.words ++ e.last ∷ []) ++ rest)) first
      ∙ ap (λ (r : List ℕ). read_words mid res buf_size r s1)
          (append_assoc e.words (e.last ∷ []) rest)
      ∙ read_words-data e.words (e.last ∷ rest) s1 refl d fits2
      ∙ read_words-cons e.last rest s2 fits3
      ∙ ap (read_words mid res buf_size rest) ends
      ∙ ap
          (λ (b : List ℕ).
            read_words mid res buf_size rest (record (after_event mid e s) { body = b }))
          (event_body s.body e)

  pub read_words-events :
      (es : List Event) (rest : List ℕ) (s : Adc)
      → All IsEvent es
      → 4 + (length s.body + length (all_words es)) < buf_size
      → read_words mid res buf_size (all_words es ++ rest) s
        ≡ read_words mid res buf_size rest (after_events mid es s)
  read_words-events [] rest s h room = refl
  read_words-events (e ∷ es) rest s h room =
      let n = length-append (event_words e) (all_words es) in
      let m = length-append s.body (event_words e) in
      let fits : 4 + (length s.body + length (event_words e)) < buf_size = omega (arith, n, room) in
      let fits_rest : 4 + (length (s.body ++ event_words e) + length (all_words es)) < buf_size =
        omega (arith, n, m, room) in
      ap (λ (r : List ℕ). read_words mid res buf_size r s)
        (append_assoc (event_words e) (all_words es) rest)
      ∙ read_words-event e (all_words es ++ rest) s h.0 fits
      ∙ read_words-events es rest (after_event mid e s) h.1 fits_rest

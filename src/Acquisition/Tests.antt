-- ===== src/Acquisition/Tests.antt =====
-- The theorems about the reading of modules at concrete contents of the FIFO.
use udaq.Base.{ℕ, ◌≤◌, ◌≡◌, refl, true, false, some, [], ◌∷◌, length, arith}
use udaq.Acquisition.{vmedaq_header_id}
use udaq.Acquisition.Adc.{fill_word, madc32_check_data}
use udaq.Acquisition.Adc.Events.{Event}
use udaq.Acquisition.Adc.Blocks.{madc32_check_data-whole}
use udaq.Acquisition.Adc.Cut.{madc32_check_data-cut}
use udaq.Acquisition.Adc.Repair.{madc32_check_data-headless}
use udaq.Acquisition.Adc.Bounds.{madc32_check_data-length}

abbrev event_a : Event
event_a = record { header = 1073741824; words = 5 ∷ []; last = 3221225479 }

abbrev event_b : Event
event_b = record { header = 1073741825; words = []; last = 3221225480 }

abbrev no_counters : ℕ → ℕ
no_counters i = 0

-- Five words and a filler.
madc32_check_data-whole_example :
    let (block, s) =
      madc32_check_data 3 1 100 9
        (1073741824 ∷ 5 ∷ 3221225479 ∷ 1073741825 ∷ 3221225480 ∷ [])
        no_counters in
    (block
      ≡ vmedaq_header_id ∷ 4096 ∷ 9 ∷ 40 ∷ 1073741824 ∷ 5 ∷ 3221225479 ∷ 1073741825 ∷ 3221225480 ∷ 0
        ∷ [])
    × (s.event_count ≡ some 8)
    × (s.counters 3 ≡ 8)
    × (s.wild ≡ false)
unfolding fill_word
madc32_check_data-whole_example =
    madc32_check_data-whole 3 1 100 9 no_counters (event_a ∷ []) event_b
      ((refl, (refl, tt), refl), tt) (refl, tt, refl) (omega arith)

madc32_check_data-cut_example :
    let (block, s) =
      madc32_check_data 3 1 100 9 (1073741824 ∷ 5 ∷ 3221225479 ∷ 1073741825 ∷ 6 ∷ []) no_counters in
    (block
      ≡ vmedaq_header_id ∷ 4096 ∷ 9 ∷ 40 ∷ 1073741824 ∷ 5 ∷ 3221225479 ∷ 1073741825 ∷ 6 ∷ 3221225480
        ∷ [])
    × (s.event_count ≡ some 7)
    × (s.counters 3 ≡ 8)
    × (s.wild ≡ false)
unfolding fill_word
madc32_check_data-cut_example =
    madc32_check_data-cut 3 1 100 9 no_counters [] event_a 1073741825 (6 ∷ []) tt
      (refl, (refl, tt), refl) refl (refl, tt) (omega arith)

-- Three words behind the made header, of the module 3.
madc32_check_data-headless_example :
    let (block, s) = madc32_check_data 3 1 100 9 (5 ∷ 6 ∷ 3221225479 ∷ []) no_counters in
    (block ≡ vmedaq_header_id ∷ 4096 ∷ 9 ∷ 32 ∷ 1090719747 ∷ 5 ∷ 6 ∷ 3221225479 ∷ [])
    × (s.event_count ≡ some 7)
    × (s.wild ≡ true)
    × (s.counters ≡ no_counters)
unfolding fill_word
madc32_check_data-headless_example =
    madc32_check_data-headless 3 1 100 9 no_counters 5 (6 ∷ []) 3221225479 (refl, (refl, tt)) refl
      (omega arith)

madc32_check_data-length_example :
    length (madc32_check_data 3 1 6 9 (5 ∷ 6 ∷ 3221225479 ∷ []) no_counters).0 ≤ 8
madc32_check_data-length_example =
    madc32_check_data-length 3 1 6 9 (5 ∷ 6 ∷ 3221225479 ∷ []) no_counters (omega arith)

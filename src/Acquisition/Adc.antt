-- ===== src/Acquisition/Adc.antt =====
-- The events of an ADC: madc32_check_data of src/vmedaq/vmedaq.c, with the bits of include/madc32.h. mqdc32_check_data is
-- the same function for another module.
pub mod Events
pub mod Blocks
pub mod Cut
pub mod Repair
pub mod Bounds
use udaq.Base.{
  ℕ, zero, suc, ◌+◌, ◌-◌, ◌*◌, ◌/◌, ◌%◌, Bool, true, false, not, ◌&&◌, Option, none, some, List, [],
  ◌∷◌, ◌++◌, length, leb, ◌==◌, if◌then◌else◌,
}
use udaq.Acquisition.{vmedaq_write_header, set_word}

-- `signature->header`, `header->module_id` and `end_of_event->event_counter`
abbrev pub signature_of : ℕ → ℕ
signature_of w = w / 1073741824 % 4

abbrev pub module_id_of : ℕ → ℕ
module_id_of w = w / 65536 % 256

abbrev pub event_counter_of : ℕ → ℕ
event_counter_of w = w % 1073741824

-- The header that is made for an event that has none, and the end of an event that has none.
abbrev pub made_header : ℕ → ℕ → ℕ → ℕ
made_header n_data_words adc_resolution mid =
    n_data_words % 4096 + 4096 * (adc_resolution % 8) + 65536 * (mid % 256) + 16777216 + 1073741824

abbrev pub made_end : ℕ → ℕ
made_end event_counter = event_counter % 1073741824 + 3221225472

-- `header->subheader = MADC32_SUBHEADER_NO_END_OF_EVENT`
abbrev pub no_end_of_event : ℕ → ℕ
no_end_of_event w = w % 16777216 + 33554432 + 1073741824 * (w / 1073741824)

-- The words behind the header of the block, the variables of the function, none for -1 and a null pointer, and the
-- counters of the modules. `wild` says that the counter with the number -1 was written.
pub record Adc : Type 0 where
  pub body : List ℕ
  pub header_pos : Option ℕ
  pub event_count : Option ℕ
  pub module_id : Option ℕ
  pub header_flag : Bool
  pub no_header_flag : Bool
  pub end_of_event_flag : Bool
  pub counters : ℕ → ℕ
  pub wild : Bool

abbrev pub set_counter : ℕ → ℕ → (ℕ → ℕ) → ℕ → ℕ
set_counter i n counters j = if j == i then n else counters j

abbrev pub word_at : Option ℕ → List ℕ → ℕ
word_at none ws = 0
word_at (some i) [] = 0
word_at (some zero) (w ∷ ws) = w
word_at (some (suc i)) (w ∷ ws) = word_at (some i) ws

abbrev pub set_word_at : Option ℕ → ℕ → List ℕ → List ℕ
set_word_at none w ws = ws
set_word_at (some i) w ws = set_word i w ws

abbrev pub position_of : Option ℕ → ℕ
position_of none = 0
position_of (some i) = i

module _ (mid adc_resolution : ℕ) where
  -- `case MADC32_HEADER_SIGNATURE_HEADER`
  abbrev pub header_case : ℕ → Adc → Adc
  header_case w s = record s {
    body = s.body ++ w ∷ [];
    module_id = some (module_id_of w);
    header_flag = true;
    no_header_flag = if s.header_flag && not s.end_of_event_flag then false else s.no_header_flag;
    end_of_event_flag = false;
  }

  -- `case MADC32_HEADER_SIGNATURE_DATA`: the first word of an event without a header is stored twice, as the first of
  -- both becomes the header.
  abbrev pub data_case : ℕ → Adc → Adc
  data_case w s =
      if not s.header_flag && not s.no_header_flag
      then record s {
        body = s.body ++ w ∷ w ∷ [];
        no_header_flag = true;
        header_pos = some (length s.body);
      }
      else record s { body = s.body ++ w ∷ [] }

  -- `case MADC32_HEADER_SIGNATURE_END_OF_EVENT`
  abbrev pub end_case : ℕ → Adc → Adc
  end_case w s =
      let body = s.body ++ w ∷ [] in
      let n = length body - position_of s.header_pos - 1 in
      record s {
        body =
            if not s.header_flag && s.no_header_flag
            then set_word_at s.header_pos (made_header n adc_resolution mid) body
            else body;
        event_count = some (event_counter_of w);
        module_id = elim s.module_id [ none ↦ none | some i ↦ some mid ];
        counters = elim s.module_id [
          | none ↦ s.counters
          | some i ↦ set_counter mid (event_counter_of w) s.counters
        ];
        wild = elim s.module_id [ none ↦ true | some i ↦ s.wild ];
        header_flag = false;
        no_header_flag = false;
        end_of_event_flag = true;
      }

  unfoldable pub read_word : ℕ → Adc → Adc
  read_word w s =
      if signature_of w == 1
      then header_case w s
      else if signature_of w == 0
      then data_case w s
      else if signature_of w == 3
      then end_case w s
      else record s { body = s.body ++ w ∷ [] }

  -- The loop over the words of the FIFO.
  unfoldable pub read_words : ℕ → List ℕ → Adc → Adc
  read_words buf_size [] s = s
  read_words buf_size (w ∷ ws) s =
      let rest = read_words buf_size ws (read_word w s) in
      if leb buf_size (4 + length (read_word w s).body) then read_word w s else rest

  -- An event that has no end at the end of the data.
  unfoldable pub close_event : Adc → Adc
  close_event s =
      if s.header_flag && not s.end_of_event_flag
      then record s {
        body =
            set_word_at s.header_pos (no_end_of_event (word_at s.header_pos s.body))
              (s.body ++ made_end (s.counters mid + 1) ∷ []);
        counters = set_counter mid (s.counters mid + 1) s.counters;
      }
      else s

  -- The filler to a boundary of 64 bits.
  unfoldable pub fill_word : List ℕ → List ℕ
  fill_word body = if length body % 2 == 1 then body ++ 0 ∷ [] else body

  -- The variables at the start.
  abbrev pub start : (ℕ → ℕ) → Adc
  start counters = record {
    body = [];
    header_pos = none;
    event_count = none;
    module_id = none;
    header_flag = false;
    no_header_flag = false;
    end_of_event_flag = false;
    counters = counters;
    wild = false;
  }

  -- The block with its header, [] where the size is 0, and the variables.
  unfoldable pub with_header : ℕ → Adc → List ℕ × Adc
  unfolding fill_word
  with_header block_counter s =
      let body = fill_word s.body in
      elim s.event_count [
        | none ↦ ([], s)
        | some n ↦ (vmedaq_write_header 4096 block_counter (4 * (4 + length body)) ++ body, s)
      ]

  unfoldable pub madc32_check_data : ℕ → ℕ → List ℕ → (ℕ → ℕ) → List ℕ × Adc
  unfolding read_words close_event with_header
  madc32_check_data buf_size block_counter fifo counters =
      with_header block_counter (close_event (read_words buf_size fifo (start counters)))

-- ===== src/Format/Tests.antt =====
-- The theorems about the check of the format at concrete blocks.
use udaq.Base.{
  ℕ, zero, suc, ◌+◌, ◌/◌, ◌%◌, ◌≡◌, ◌↔◌, refl, none, some, List, [], ◌∷◌, ◌==◌, if◌then◌else◌, leb,
  length, pos, negsuc, arith,
}
use udaq.Format.{Memory}
use udaq.Format.Counters.{cnt_err_blks}
use udaq.Format.State.{Layout, Checker, Checked}
use udaq.Format.Encode.{Block, IsBlock, Holds, block_words, block_tally}
use udaq.Format.Modules.Fera.{Fera, fera_id, clear_fera, check_fera_init}
use udaq.Format.Modules.Lr3377.{Lr3377, lr3377_id, clear_3377, check_lr3377_init}
use udaq.Format.Modules.Pcos.{Pcos, pcos_addr, clear_pcos, check_pcos_init}
use udaq.Format.Modules.Cleared.{SortedFrom, check_init-SortedFrom}
use udaq.Format.Regions.{check_rgns}
use udaq.Format.Regions.Accepts.{Reads, check_rgns-accepts}
use udaq.Format.Fields.{check_flds}
use udaq.Format.Fields.Ends.{check_flds-hangs}
use udaq.Format.Events.{check_evts}
use udaq.Format.Block.{check_buf, check_blk_header}
use udaq.Format.Block.Encoded.{check_buf-encoded}
use udaq.Format.Block.Accepts.{GoodHeader, GoodTrailer, check_buf-accepts}
use udaq.Format.Block.Ends.{check_buf-returns}
use udaq.Format.Block.Arrays.{FitsArrays, check_buf-FitsArrays}

abbrev layout : Layout
layout = record {
  fera_bits = record { vsn = λ w. w % 256; ch = λ w. w / 2048 % 16; dat = λ w. w % 2048 };
  lr3377_bits = record {
    hdr = λ w. leb 32768 w;
    vsn = λ w. w % 256;
    evt = λ w. w / 256 % 8;
    ch = λ w. w / 1024 % 32;
    dat = λ w. w % 1024;
  };
  pcos_bits = record {
    hdr = λ w. leb 32768 w;
    delim = λ w. leb 49152 w;
    width = λ w. w % 64;
    addr = λ w. w / 64 % 256;
    ch = λ w. w / 2 % 32;
    half = λ w. w % 2 == 1;
  };
}

abbrev start : Checker
start = record {
  counter = λ i. 0;
  blk_num = 5;
  inpreg = record {
    mods = λ i. record { word = 0; bits = λ j. 0; diff = λ j. 0; sum = λ j. 0 };
    ninpreg = 0;
    cinpreg = 0;
    raw = [];
    show_count = 0;
  };
  fera = record { mods = []; raw = [] };
  lr3377 = record { mods = []; raw = [] };
  pcos = record { mods = []; raw = [] };
}

-- An event with a field of two regions: an ADC of the FERA kind and an input register.
abbrev one_event : Block
one_event = record {
  block_id = 1;
  block_number = 5;
  events =
      record {
        event_id = 0;
        fields =
            record {
              field_id = 3;
              regions =
                  record { rgn_id = 13; content = 17 ∷ 4100 ∷ [] }
                  ∷ record { rgn_id = 2; content = 5 ∷ [] }
                  ∷ [];
            }
            ∷ [];
      }
      ∷ [];
}

abbrev memory_of : List ℕ → Memory
memory_of [] p = 0
memory_of (w ∷ ws) zero = w
memory_of (w ∷ ws) (suc p) = memory_of ws p

abbrev one_block : Memory
one_block = memory_of (block_words one_event)

one_block-Holds : Holds one_block 0 (block_words one_event)
one_block-Holds = (
  refl,
  (
    refl,
    (
      refl,
      (
        refl,
        (
          refl,
          (
            refl,
            (
              refl,
              (
                refl,
                (
                  refl,
                  (
                    refl,
                    (
                      refl,
                      (
                        refl,
                        (
                          refl,
                          (
                            refl,
                            (
                              refl,
                              (
                                refl,
                                (
                                  refl,
                                  (
                                    refl,
                                    (refl, (refl, (refl, (refl, (refl, (refl, (refl, tt))))))),
                                  ),
                                ),
                              ),
                            ),
                          ),
                        ),
                      ),
                    ),
                  ),
                ),
              ),
            ),
          ),
        ),
      ),
    ),
  ),
)

one_event-IsBlock : IsBlock one_event
one_event-IsBlock = (
  omega arith,
  omega arith,
  (
    (
      omega arith,
      (
        (
          omega arith,
          ((omega arith, omega arith, omega arith), ((omega arith, omega arith, omega arith), tt)),
        ),
        tt,
      ),
    ),
    tt,
  ),
)

check_buf-encoded_example :
    (t : Checker) × (check_buf layout 1 one_block 30 0 (length (block_words one_event)) start
      ≡ some t)
    × ((j : ℕ) → t.counter j ≡ 0 + block_tally one_event j)
check_buf-encoded_example =
    check_buf-encoded layout 1 one_block one_event 30 0 start one_event-IsBlock one_block-Holds
      (omega arith) refl (omega arith)

-- The globals after that block.
abbrev checked : Checker
checked =
    (check_buf-encoded layout 1 one_block one_event 30 0 start one_event-IsBlock one_block-Holds
      (omega arith) refl (omega arith)).0

checked_run : check_buf layout 1 one_block 30 0 25 start ≡ some checked
checked_run =
    (check_buf-encoded layout 1 one_block one_event 30 0 start one_event-IsBlock one_block-Holds
      (omega arith) refl (omega arith)).1

checked_counter : checked.counter cnt_err_blks ≡ 0
checked_counter =
    (check_buf-encoded layout 1 one_block one_event 30 0 start one_event-IsBlock one_block-Holds
        (omega arith) refl (omega arith)).2
      cnt_err_blks

check_buf-accepts_example :
    GoodHeader layout 1 one_block 0 25 5
    × GoodTrailer layout 1 one_block 0 25
    × ((c : Checked) × (check_evts layout 1 one_block 30 8 23
            (check_blk_header layout 1 one_block 0 25 start)
          ≡ some c)
        × (c.errors ≡ 0)
        × (c.num ≡ 1))
check_buf-accepts_example =
    check_buf-accepts layout 1 one_block 30 0 25 start checked refl checked_run checked_counter

start-FitsArrays : FitsArrays start
start-FitsArrays = (
  ((omega arith, tt), omega arith),
  ((omega arith, tt), omega arith),
  ((omega arith, tt), omega arith),
  (omega arith, omega arith, omega arith),
)

-- A block with an event, a field and a region of one word for the input register.
abbrev one_region : Memory
one_region p =
    if p == 8
    then 65503
    else if p == 9
    then 6
    else if p == 11
    then 12
    else if p == 14
    then 65487
    else if p == 15
    then 6
    else if p == 17
    then 6
    else if p == 20
    then 8193
    else if p == 21
    then 7
    else 0

check_buf-FitsArrays_example :
    (t : Checker) × (check_buf layout 1 one_region 25 0 24 start ≡ some t) × FitsArrays t
check_buf-FitsArrays_example =
    check_buf-FitsArrays layout 1 one_region (λ q h. ground (arith, h)) (λ q h. ground (arith, h))
      25 0 24 start (omega arith) start-FitsArrays

-- A region of one word, and a word that is a region without data.
abbrev two_regions : Memory
two_regions p = if p == 0 then 8193 else if p == 2 then 28672 else 7

check_rgns-accepts_example :
    ((check_rgns layout two_regions 0 3 start).errors ≡ 0) ↔ Reads layout two_regions 0 3
check_rgns-accepts_example = check_rgns-accepts layout two_regions (λ q. ground arith) 0 3 start

-- A field header with both sizes 0.
abbrev stuck_field : Memory
stuck_field p = if p == 0 then 65487 else 0

check_flds-hangs_example : check_flds layout 1 stuck_field 100 0 4 start ≡ none
check_flds-hangs_example =
    check_flds-hangs layout 1 stuck_field 100 0 4 start (omega arith) refl refl refl

-- A block with the header of an event without fields in front of zeros.
abbrev short_event : Memory
short_event p = if p == 8 then 65503 else if p == 9 then 6 else 0

check_buf-returns_example : (t : Checker) × (check_buf layout 1 short_event 17 0 16 start ≡ some t)
check_buf-returns_example =
    check_buf-returns layout 1 short_event (λ q h. ground (arith, h)) (λ q h. ground (arith, h)) 17
      0 16 start (omega arith)

abbrev fera_of_two : Fera
fera_of_two = record {
  mods =
      record { id = 9; channels = λ j. pos 4 } ∷ record { id = 2; channels = λ j. negsuc 0 } ∷ [];
  raw = [];
}

abbrev lr3377_of_two : Lr3377
lr3377_of_two = record {
  mods =
      record { id = 7; evt = pos 1; channels = λ j. pos 4; nhit = λ j. 3 }
      ∷ record { id = 1; evt = pos 1; channels = λ j. negsuc 0; nhit = λ j. 5 }
      ∷ [];
  raw = [];
}

abbrev pcos_of_two : Pcos
pcos_of_two = record {
  mods =
      record { addr = 7; hit = λ j. 1; nhit = λ j. 3 }
      ∷ record { addr = 1; hit = λ j. 0; nhit = λ j. 5 }
      ∷ [];
  raw = [];
}

check_init-SortedFrom_example :
    SortedFrom fera_id clear_fera fera_of_two.mods (check_fera_init fera_of_two).mods
    × SortedFrom lr3377_id clear_3377 lr3377_of_two.mods (check_lr3377_init lr3377_of_two).mods
    × SortedFrom pcos_addr clear_pcos pcos_of_two.mods (check_pcos_init pcos_of_two).mods
check_init-SortedFrom_example = check_init-SortedFrom fera_of_two lr3377_of_two pcos_of_two

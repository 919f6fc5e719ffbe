-- ===== src/Collector/Tests.antt =====
-- The theorems about the collector at concrete rounds and blocks.
use udaq.Base.{
  ℕ, zero, suc, ◌+◌, ◌%◌, ◌≡◌, refl, true, false, some, inr, if◌then◌else◌, List, [], ◌∷◌, ◌++◌,
  ◌==◌, arith,
}
use udaq.Tcp.Blocks.{pieces}
use udaq.Transfer.{zeros}
use udaq.Transfer.Server.{send_blocks, router_inet_version_2}
use udaq.Transfer.Server.Acts.{sent, held}
use udaq.Format.Encode.{Region, event_words}
use udaq.Collector.Sender.{encode_scl_blk, collect_tcp}
use udaq.Collector.Sender.Scaler.{scaler_event, encode_scl_blk-event}
use udaq.Collector.Sender.Blocks.{prepared, collect_tcp-send_blocks}
use udaq.Format.{Memory}
use udaq.Format.Counters.{cnt_num_blks, cnt_err_blks, cnt_err_blk_header, cnt_err_blk_size}
use udaq.Format.State.{Layout, Checker}
use udaq.Format.Encode.{Holds}
use udaq.Format.Block.{check_buf}
use udaq.Collector.{Lrm}
use udaq.Collector.RunBlocks.{
  CmdMsgbuf, encode_run, encode_run_start, encode_run_end, comment_words, blk_header_end,
}
use udaq.Collector.Loop.{run_off, run_on, Bus, Collector, run_on_case, collect_data}
use udaq.Collector.Rounds.{ring}
use udaq.Collector.Commands.{gr_cmd_start, gr_cmd_stop, collect_cmd}
use udaq.Collector.Commands.Early.{last_blocks, collect_cmd-early}
use udaq.Collector.Commands.Start.{collect_cmd-starts}
use udaq.Collector.Overflow.{Served, run_on_case-Served}
use udaq.Collector.Format.{check_buf-encode_run}

abbrev message : CmdMsgbuf
message = record { run = 7; comment = 65 ∷ 0 ∷ [] }

-- The modules 0 and 3 have two words and one.
abbrev modules : ℕ → Lrm
modules i = record {
  mem = λ j. 100 + i + j;
  mem_ptr = if i == 0 then 2 else if i == 3 then 1 else 0;
}

abbrev full : Bus
full = record { ff = 259; lrm = modules; scaler = 11 ∷ 12 ∷ []; time = 70000 }

abbrev running : Collector
running = record {
  status = run_on;
  mb = message;
  cmb = message;
  level = record { buf1 = true; buf2 = true; veto = false };
  i_buf = 1;
  p_buf = 1;
  strange_value_count = 0;
  actions = [];
}

run_on_case-Served_example : Served 4 full running 3 (run_on_case 4 false full running)
run_on_case-Served_example =
    run_on_case-Served 4 full running (omega arith) (omega arith) (omega arith)

abbrev idle : Collector
idle = record running { status = run_off }

abbrev end_block : List ℕ
end_block =
    65535 ∷ 6 ∷ 3842 ∷ 14 ∷ 0 ∷ 0 ∷ 0 ∷ 1024 ∷ 772 ∷ 258 ∷ 1 ∷ 4464 ∷ 7 ∷ 65 ∷ 0 ∷ 0 ∷ 0 ∷ 0 ∷ 65519
    ∷ 2 ∷ []

end_block_lem : encode_run_end 20 70000 message ≡ some end_block
unfolding encode_run comment_words
end_block_lem = refl

collect_cmd-early_example :
    (u v t : Collector) × (collect_cmd gr_cmd_start message idle ≡ some u)
    × (collect_cmd gr_cmd_stop message u ≡ some v)
    × (collect_data 20 false full v ≡ some t)
    × (t.status ≡ run_off)
    × (ring t ≡ last_blocks 20 full 0 end_block)
collect_cmd-early_example =
    collect_cmd-early 20 full idle message message end_block refl (omega arith) end_block_lem

abbrev start_block : List ℕ
start_block =
    65535 ∷ 6 ∷ 3841 ∷ 14 ∷ 0 ∷ 0 ∷ 0 ∷ 1024 ∷ 772 ∷ 258 ∷ 1 ∷ 4464 ∷ 1 ∷ 65 ∷ 0 ∷ 0 ∷ 0 ∷ 0 ∷ 65519
    ∷ 2 ∷ []

start_block_lem : encode_run_start 20 70000 (record message { run = 1 }) ≡ some start_block
unfolding encode_run comment_words
start_block_lem = refl

collect_cmd-starts_example :
    (u t : Collector) × (collect_cmd gr_cmd_start message idle ≡ some u)
    × (collect_data 20 false full u ≡ some t)
    × (t.status ≡ run_on)
    × (t.cmb ≡ record message { run = 1 })
    × (t.level ≡ record { buf1 = true; buf2 = true; veto = false })
    × (ring t ≡ start_block ∷ [])
collect_cmd-starts_example =
    collect_cmd-starts 20 full idle message start_block refl (omega arith) start_block_lem

abbrev layout : Layout
layout = record {
  fera_bits = record { vsn = λ w. w; ch = λ w. w % 16; dat = λ w. w };
  lr3377_bits = record {
    hdr = λ w. true;
    vsn = λ w. w;
    evt = λ w. w;
    ch = λ w. w % 32;
    dat = λ w. w;
  };
  pcos_bits = record {
    hdr = λ w. true;
    delim = λ w. true;
    width = λ w. w;
    addr = λ w. w;
    ch = λ w. w % 32;
    half = λ w. w % 2 == 1;
  };
}

abbrev start : Checker
start = record {
  counter = λ i. 0;
  blk_num = 0;
  inpreg = record {
    mods = λ i. record { word = 0; bits = λ j. 0; diff = λ j. 0; sum = λ j. 0 };
    ninpreg = 0;
    cinpreg = 0;
    raw = [];
    show_count = 0;
  };
  fera = record { mods = []; raw = [] };
  lr3377 = record { mods = []; raw = [] };
  pcos = record { mods = []; raw = [] };
}

abbrev memory_of : List ℕ → Memory
memory_of [] p = 0
memory_of (w ∷ ws) zero = w
memory_of (w ∷ ws) (suc p) = memory_of ws p

check_buf-encode_run_example :
    (t : Checker) × (check_buf layout 0 (memory_of end_block) 0 0 20 start ≡ some t)
    × (t.counter cnt_num_blks ≡ 1)
    × (t.counter cnt_err_blk_header ≡ 2)
    × (t.counter cnt_err_blk_size ≡ 1)
    × (t.counter cnt_err_blks ≡ 0)
check_buf-encode_run_example =
    check_buf-encode_run layout 0 (memory_of end_block) blk_header_end 20 70000 0 0 message
      end_block start (inr refl) end_block_lem held (omega arith) (omega arith)
  where
    held : Holds (memory_of end_block) 0 end_block
    held = (
      refl,
      (
        refl,
        (
          refl,
          (
            refl,
            (
              refl,
              (
                refl,
                (
                  refl,
                  (
                    refl,
                    (
                      refl,
                      (
                        refl,
                        (
                          refl,
                          (
                            refl,
                            (refl, (refl, (refl, (refl, (refl, (refl, (refl, (refl, tt)))))))),
                          ),
                        ),
                      ),
                    ),
                  ),
                ),
              ),
            ),
          ),
        ),
      ),
    )

-- A region of 131 words, and what is behind it in the buffer.
abbrev scaler_region : Region
scaler_region = record { rgn_id = 1; content = 5 ∷ zeros 130 }

abbrev scaler_buf : List ℕ
scaler_buf = 4227 ∷ 5 ∷ zeros 152

encode_scl_blk-event_example :
    encode_scl_blk scaler_buf 3
    ≡ 65535
      ∷ 6
      ∷ 3584
      ∷ 148
      ∷ 3
      ∷ 1
      ∷ (event_words 331 (scaler_event (scaler_region ∷ [])) ++ (65519 ∷ 2 ∷ []))
encode_scl_blk-event_example = encode_scl_blk-event scaler_buf 3 (scaler_region ∷ []) refl refl

collect_tcp-send_blocks_example :
    sent
      (collect_tcp router_inet_version_2 154 0
        (zeros 56)
        0
        308
        5
        (scaler_buf ∷ [])
        (pieces (zeros 4 ∷ []))).0
    ≡ sent
        (send_blocks router_inet_version_2 0
          (zeros 56)
          0
          []
          (held (prepared 5 (scaler_buf ∷ [])))
          (pieces (zeros 4 ∷ []))).0
collect_tcp-send_blocks_example =
    collect_tcp-send_blocks 154 0 (zeros 56) (scaler_buf ∷ []) 0 5 [] (zeros 4 ∷ []) [] (refl, tt)
      (omega arith) refl

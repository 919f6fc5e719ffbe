-- ===== src/Recorder/Tests.antt =====
-- The theorems about the recording of blocks at concrete rounds.
use udaq.Base.{ℕ, ◌≡◌, refl, true, false, some, List, [], ◌∷◌, arith}
use udaq.Recorder.{Recorder, Turn, Options, waits, save_blocks}
use udaq.Recorder.Files.{IsRecorder, recorded, save_blocks-files}
use udaq.Recorder.Sums.{save_blocks-reported}

abbrev options : Options
options = record { vflag = false; cflag = true; bsize = 4; named = true }

abbrev round : List ℕ → Turn
round b = record { buf = some b; stored = 100; release_ok = true; fopen_ok = true }

abbrev three_rounds : List Turn
three_rounds = round (1 ∷ 2 ∷ 3 ∷ []) ∷ round (4 ∷ 5 ∷ 6 ∷ 7 ∷ 8 ∷ []) ∷ round [] ∷ []

abbrev start : Recorder
start = record {
  closed = [];
  file = [];
  count = 0;
  nfile = 1;
  released = [];
  totals = record { blk_cnt = 0; run_size = 0; reported = [] };
}

-- With 6 bytes to a file the first is closed after two blocks.
save_blocks-files_example :
    ((save_blocks 6 options three_rounds start).1 ≡ waits)
    × (recorded 6 4 options (save_blocks 6 options three_rounds start).0
        ≡ 1 ∷ 2 ∷ 3 ∷ 0 ∷ 4 ∷ 5 ∷ 6 ∷ 7 ∷ 0 ∷ 0 ∷ 0 ∷ 0 ∷ [])
    × IsRecorder 6 4 options (save_blocks 6 options three_rounds start).0
save_blocks-files_example =
    save_blocks-files 6 4 options three_rounds start (omega arith)
      (
        (_, refl, omega arith, omega arith, refl, refl),
        (
          (_, refl, omega arith, omega arith, refl, refl),
          ((_, refl, omega arith, omega arith, refl, refl), tt),
        ),
      )
      (refl, (λ e. omega arith), tt)

save_blocks-reported_example : (save_blocks 6 options three_rounds start).0.totals.reported ≡ []
save_blocks-reported_example = save_blocks-reported 6 options three_rounds start

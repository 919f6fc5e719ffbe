-- ===== src/Recorder.antt =====
-- The recording of blocks in files: the loop of src/router/tools/router_save.c, with assign_j11.c. Messages are left out
-- but for the report at the end of a run. The machine has 32-bit `int` and the low byte first.
pub mod Assign
pub mod Files
pub mod Sums
mod Tests
use udaq.Base.{
  ℕ, zero, suc, ◌+◌, ◌-◌, ◌*◌, ◌%◌, Bool, true, false, ◌&&◌, Option, none, some, List, [], ◌∷◌,
  ◌++◌, length, ltb, leb, ◌==◌, not, if◌then◌else◌,
}
use udaq.Transfer.{take, zeros}
use udaq.Recorder.Assign.{Kind, blk_start, blk_end, assign_j11}

-- The static variables of `check_buf`, with the blocks and bytes that it reported at the ends of runs.
pub record Totals : Type 0 where
  pub blk_cnt : ℕ
  pub run_size : ℕ
  pub reported : List (ℕ × ℕ)

-- `run_size` is an `int`, as a bit pattern.
unfoldable pub check_buf : Kind → ℕ → Totals → Totals
check_buf kind rsize t =
    let start : Bool = elim kind [ blk_start ↦ true | _ ↦ false ] in
    let blk_cnt = (if start then 0 else t.blk_cnt) + 1 in
    let run_size = ((if start then 0 else t.run_size) + rsize) % 4294967296 in
    elim kind [
      | blk_end ↦ record {
        blk_cnt = blk_cnt;
        run_size = run_size;
        reported = t.reported ++ (run_size, blk_cnt) ∷ [];
      }
      | _ ↦ record { blk_cnt = blk_cnt; run_size = run_size; reported = t.reported }
    ]

-- The files that were closed, in their order, what was written to the open one, the bytes that are counted for it, the
-- number of the file, and the sizes with which buffers were released.
pub record Recorder : Type 0 where
  pub closed : List (List ℕ)
  pub file : List ℕ
  pub count : ℕ
  pub nfile : ℕ
  pub released : List ℕ
  pub totals : Totals

-- What a round meets: the buffer that `router_get_buf` gives, none for an error, how many bytes of it reach the file,
-- whether `router_release_buf` works, and whether a new file can be created.
pub record Turn : Type 0 where
  pub buf : Option (List ℕ)
  pub stored : ℕ
  pub release_ok : Bool
  pub fopen_ok : Bool

pub data Ending : Type 0 where
  breaks exits waits : Ending

-- The flags of the command line, `bsize` in bytes, and whether a file name is given.
pub record Options : Type 0 where
  pub vflag : Bool
  pub cflag : Bool
  pub bsize : ℕ
  pub named : Bool

module _ (max_size : ℕ) (o : Options) where
  -- What is written for a buffer: the buffer itself, or `bsize` bytes.
  abbrev pub image : List ℕ → List ℕ
  image buf =
      if o.vflag then buf else take o.bsize buf ++ zeros (o.bsize - length (take o.bsize buf))

  -- The size with which the buffer is released.
  abbrev pub released_size : List ℕ → ℕ
  released_size buf = if o.vflag then length buf else length (take o.bsize buf)

  -- `fwrite` gives an unsigned number, so its test for an error never fires.
  abbrev pub save : List ℕ → ℕ → Recorder → Recorder
  save buf stored r = record r {
    file = r.file ++ take stored (image buf);
    count = r.count + length (image buf);
    released = r.released ++ released_size buf ∷ [];
    totals = check_buf (assign_j11 (take (released_size buf) buf)) (length (image buf)) r.totals;
  }

  -- The next file, where the open one has `MAXSIZE` bytes.
  abbrev pub is_full : Recorder → Bool
  is_full r = (o.cflag && o.named) && leb max_size r.count

  abbrev pub next_file : Recorder → Recorder
  next_file r = record r {
    closed = r.closed ++ r.file ∷ [];
    file = [];
    count = 0;
    nfile = r.nfile + 1;
  }

  abbrev pub after_save : Recorder → Recorder
  after_save s = if is_full s then next_file s else s

  unfoldable pub save_blocks : List Turn → Recorder → Recorder × Ending
  unfolding check_buf
  save_blocks [] r = (r, waits)
  save_blocks (turn ∷ turns) r = elim turn.buf [
    | none ↦ (r, breaks)
    | some buf ↦
        let s = save buf turn.stored r in
        let on = save_blocks turns (after_save s) in
        if turn.release_ok
        then (if is_full s && not turn.fopen_ok then (s, exits) else on)
        else (s, breaks)
  ]

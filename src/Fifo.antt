-- ===== src/Fifo.antt =====
-- The ring of data blocks between the threads of the collector: src/gr/ring_buf.c. A call that waits at a
-- condition variable has no result; the lock makes each call one step.
pub mod Refine
mod Tests
use udaq.Base.{
  ℕ, zero, suc, ◌+◌, ◌-◌, ◌*◌, ◌%◌, Bool, true, false, Option, none, some, List, [], ◌∷◌, ◌==◌, leb,
  if◌then◌else◌,
}

-- `QSIZE`
abbrev pub qsize : ℕ
qsize = 128

-- `ring_buf_t`. `shm_hdl` gives the block of `blk_size` words that a pointer of the ring points to; there are `qsize`
-- pointers, and what it gives from `qsize` on means nothing.
pub record RingBuf : Type 0 where
  pub start_idx : ℕ
  pub num_full : ℕ
  pub shm_hdl : ℕ → List ℕ

-- `for(i=0;i<n;i++) to[i] = from[i];`
unfoldable pub copy_block : ℕ → List ℕ → List ℕ → List ℕ
copy_block zero from to = to
copy_block (suc n) [] to = to
copy_block (suc n) (x ∷ from) [] = []
copy_block (suc n) (x ∷ from) (y ∷ to) = x ∷ copy_block n from to

abbrev pub set_at : ℕ → List ℕ → (ℕ → List ℕ) → ℕ → List ℕ
set_at k x slot i = if i == k then x else slot i

module _ (max_que_num blk_size : ℕ) where
  -- `new_rb`, where `malloc` gives the memory, with whatever the memory holds; none where the loop over
  -- `max_que_num` pointers writes beyond the array.
  abbrev pub new_rb : (ℕ → List ℕ) → Option RingBuf
  new_rb memory =
      if leb max_que_num qsize
      then some (record { start_idx = 0; num_full = 0; shm_hdl = memory })
      else none

  -- `put_rb_data`; none where it waits for room.
  unfoldable pub put_rb_data : List ℕ → RingBuf → Option RingBuf
  unfolding copy_block
  put_rb_data block r =
      if r.num_full == max_que_num
      then none
      else let at = (r.start_idx + r.num_full) % max_que_num in
        some (record r {
          num_full = r.num_full + 1;
          shm_hdl = set_at at (copy_block blk_size block (r.shm_hdl at)) r.shm_hdl;
        })

  -- `get_rb_data` into the given block; none where it waits for a block.
  unfoldable pub get_rb_data : List ℕ → RingBuf → Option (List ℕ × RingBuf)
  unfolding copy_block
  get_rb_data block r =
      if r.num_full == 0
      then none
      else some (
        copy_block blk_size (r.shm_hdl r.start_idx) block,
        record r { start_idx = (r.start_idx + 1) % max_que_num; num_full = r.num_full - 1 },
      )

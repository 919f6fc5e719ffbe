-- ===== src/Fifo/Tests.antt =====
-- The theorems about the ring of blocks at concrete rings.
use udaq.Base.{ℕ, ◌≡◌, ◌⊎◌, refl, none, some, List, [], ◌∷◌, ◌++◌, arith, length}
use udaq.Fifo.{RingBuf, put_rb_data, get_rb_data}
use udaq.Fifo.Refine.{IsRing, queue, put_rb_data-queue, get_rb_data-queue}

-- Two of three blocks of two words are full, and the next one is the first of the memory.
abbrev two_full : RingBuf
two_full = record { start_idx = 1; num_full = 2; shm_hdl = λ i. i ∷ i ∷ [] }

two_full-IsRing : IsRing 3 2 two_full
two_full-IsRing = record {
  fits = ground arith;
  start = ground arith;
  full = ground arith;
  sized = λ i p. refl;
}

put_rb_data-queue_example :
    ((put_rb_data 3 2 (8 ∷ 9 ∷ []) two_full ≡ none) × (length (queue 3 2 two_full) ≡ 3))
    ⊎ ((r' : RingBuf) × (put_rb_data 3 2 (8 ∷ 9 ∷ []) two_full ≡ some r')
        × IsRing 3 2 r'
        × (queue 3 2 r' ≡ queue 3 2 two_full ++ (8 ∷ 9 ∷ []) ∷ []))
put_rb_data-queue_example = put_rb_data-queue 3 2 (8 ∷ 9 ∷ []) two_full two_full-IsRing refl

get_rb_data-queue_example :
    ((get_rb_data 3 2 (0 ∷ 0 ∷ []) two_full ≡ none) × (queue 3 2 two_full ≡ []))
    ⊎ ((x : List ℕ) × (r' : RingBuf) × (get_rb_data 3 2 (0 ∷ 0 ∷ []) two_full ≡ some (x, r'))
        × IsRing 3 2 r'
        × (queue 3 2 two_full ≡ x ∷ queue 3 2 r'))
get_rb_data-queue_example = get_rb_data-queue 3 2 (0 ∷ 0 ∷ []) two_full two_full-IsRing refl

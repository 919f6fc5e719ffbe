-- ===== src/Fifo/Refine.antt =====
-- src/gr/ring_buf.c against a bounded queue of blocks.
use udaq.Base.{
  ℕ, zero, suc, ◌+◌, ◌-◌, ◌%◌, ◌≤◌, ◌<◌, ◌≡◌, ◌≢◌, ◌⊎◌, refl, ap, sym, ◌∙◌, false, none, some, List,
  [], ◌∷◌, ◌++◌, ◌==◌, arith, length, Bool-cases, inl, inr, ltb, leb, Option,
}
use mathlib.Core.Path.{subst}
use native.Mathlib.Nat.{mod-lt, mod-eq_of_lt, mod-eq-sub-mod, mod-add-mod}
use udaq.Fifo.{qsize, RingBuf, copy_block, set_at, new_rb, put_rb_data, get_rb_data}

abbrev or_else : RingBuf → Option RingBuf → RingBuf
or_else r none = r
or_else r (some s) = s

Nat-cases : (n : ℕ) → (n ≡ 0) ⊎ ((k : ℕ) × (n ≡ suc k))
Nat-cases zero = inl refl
Nat-cases (suc n) = inr (n, refl)

suc-add : (n : ℕ) → n + 1 ≡ suc n
suc-add n = omega arith

suc-pred : (n : ℕ) → suc n - 1 ≡ n
suc-pred n = omega arith

suc-not_zero : (n : ℕ) → (suc n == 0) ≡ false
suc-not_zero n = ground arith

copy_block-whole :
    (n : ℕ) (from to : List ℕ) → length from ≡ n → length to ≡ n → copy_block n from to ≡ from
unfolding copy_block
copy_block-whole zero [] to h k = ground (arith, k)
copy_block-whole zero (x ∷ from) to h k = ground (arith, h)
copy_block-whole (suc n) [] to h k = ground (arith, h)
copy_block-whole (suc n) (x ∷ from) [] h k = ground (arith, k)
copy_block-whole (suc n) (x ∷ from) (y ∷ to) h k =
    ap (λ u. x ∷ u) (copy_block-whole n from to (omega (arith, h)) (omega (arith, k)))

-- The wrapped sum is not the place it starts from.
wrap-ne : (m h k : ℕ) → h < m → suc k < m → (h + suc k) % m ≢ h
wrap-ne m h k a b e = elim (Bool-cases (ltb (h + suc k) m)) [
  | inl l ↦ let q = mod-eq_of_lt {n = h + suc k} {m = m} (ground (arith, l)) in omega (arith, q, e)
  | inr l ↦
      let g : m ≤ h + suc k = ground (arith, l) in
      let q = mod-eq-sub-mod {n = h + suc k} {m = m} g in
      let q' = mod-eq_of_lt {n = h + suc k - m} {m = m} (omega (arith, a, b)) in
      omega (arith, q, q', e, g, a, b)
]

module _ (max_que_num blk_size : ℕ) where
  -- The `n` blocks of the ring from the place `h` on.
  abbrev blocks : (ℕ → List ℕ) → ℕ → ℕ → List (List ℕ)
  blocks slot h zero = []
  blocks slot h (suc n) = slot h ∷ blocks slot ((h + 1) % max_que_num) n

  -- The queue that the ring stands for, the oldest block first.
  abbrev pub queue : RingBuf → List (List ℕ)
  queue r = blocks r.shm_hdl r.start_idx r.num_full

  -- A ring that `new_rb` and the calls after it may leave: its places are within the array of pointers.
  pub record IsRing (r : RingBuf) : Type 0 where
    pub fits : max_que_num ≤ qsize
    pub start : r.start_idx < max_que_num
    pub full : r.num_full ≤ max_que_num
    pub sized : (i : ℕ) → i < max_que_num → length (r.shm_hdl i) ≡ blk_size

  blocks-set :
      (x : List ℕ) (slot : ℕ → List ℕ) (h n k : ℕ)
      → h < max_que_num
      → n < max_que_num
      → k ≡ (h + n) % max_que_num
      → blocks (set_at k x slot) h (suc n) ≡ blocks slot h n ++ x ∷ []
  blocks-set x slot h zero k a b e =
      let k' : k ≡ h = e ∙ ap (λ j. j % max_que_num) (omega arith) ∙ mod-eq_of_lt a in
      ground (arith, k')
  blocks-set x slot h (suc n) k a b e =
      let ne = wrap-ne max_que_num h n a b in
      let shift : (h + suc n) % max_que_num ≡ ((h + 1) % max_que_num + n) % max_que_num =
        ap (λ j. j % max_que_num) (omega arith) ∙ sym (mod-add-mod (h + 1) max_que_num n) in
      let ih =
        blocks-set x slot ((h + 1) % max_que_num) n k (mod-lt (h + 1) (omega (arith, b)))
          (omega (arith, b)) (e ∙ shift) in
      ground (arith, ih, ne, e)

  length-blocks : (slot : ℕ → List ℕ) (h n : ℕ) → length (blocks slot h n) ≡ n
  length-blocks slot h zero = refl
  length-blocks slot h (suc n) = ap suc (length-blocks slot ((h + 1) % max_que_num) n)

  set_at-sized :
      (k : ℕ) (x : List ℕ) (slot : ℕ → List ℕ) (i : ℕ)
      → length x ≡ blk_size
      → length (slot i) ≡ blk_size
      → length (set_at k x slot i) ≡ blk_size
  set_at-sized k x slot i h v = ground (arith, h, v)

  -- `new_rb` gives such a ring, with no block in it, where the ring has at least one place and at most 128, with
  -- memory for its blocks, and there is none for a larger one.
  new_rb-IsRing :
      (memory : ℕ → List ℕ) (r : RingBuf)
      → 0 < max_que_num
      → ((i : ℕ) → i < max_que_num → length (memory i) ≡ blk_size)
      → new_rb max_que_num blk_size memory ≡ some r
      → IsRing r × (queue r ≡ [])
  new_rb-IsRing memory r p v e = elim (Bool-cases (leb max_que_num qsize)) [
    | inl l ↦
        let same : record { start_idx = 0; num_full = 0; shm_hdl = memory } ≡ r =
          ap (or_else r) (rw l at e) in
        subst (λ (u : RingBuf). IsRing u × (queue u ≡ [])) same
          (record { fits = ground (arith, l); start = p; full = omega arith; sized = v }, refl)
    | inr l ↦ let e' = rw l at e in absurd (ground (arith, e'))
  ]

  -- On a ring of at most 128 blocks that the calls may leave, with a block of the size of its blocks, `put_rb_data` waits
  -- exactly where the ring is full, and otherwise appends the block to the queue and leaves such a
  -- ring.
  pub put_rb_data-queue :
      (block : List ℕ) (r : RingBuf)
      → IsRing r
      → length block ≡ blk_size
      → ((put_rb_data max_que_num blk_size block r ≡ none) × (length (queue r) ≡ max_que_num))
        ⊎ ((r' : RingBuf) × (put_rb_data max_que_num blk_size block r ≡ some r')
            × IsRing r'
            × (queue r' ≡ queue r ++ block ∷ []))
  unfolding put_rb_data
  put_rb_data-queue block r v d = elim (Bool-cases (r.num_full == max_que_num)) [
    | inl e ↦ inl (
      rw (e, put_rb_data) refl,
      length-blocks r.shm_hdl r.start_idx r.num_full ∙ ground (arith, e),
    )
    | inr e ↦
        let at = (r.start_idx + r.num_full) % max_que_num in
        let within : at < max_que_num =
          mod-lt (r.start_idx + r.num_full) (omega (arith, v.start)) in
        let room : r.num_full < max_que_num = ground (arith, e, v.full) in
        let r' : RingBuf = record r {
          num_full = r.num_full + 1;
          shm_hdl = set_at at block r.shm_hdl;
        } in
        inr (
          r',
          rw (e, put_rb_data)
              (rw (copy_block-whole blk_size block (r.shm_hdl at) d (v.sized at within)) refl),
          record {
            fits = v.fits;
            start = v.start;
            full = omega (arith, room);
            sized = λ i p. set_at-sized at block r.shm_hdl i d (v.sized i p);
          },
          ap (λ n. blocks (set_at at block r.shm_hdl) r.start_idx n) (suc-add r.num_full)
              ∙ blocks-set block r.shm_hdl r.start_idx r.num_full at v.start room refl,
        )
  ]

  -- On a ring of at most 128 blocks that the calls may leave, with a block of the size of its blocks, `get_rb_data` waits
  -- exactly where the ring is empty, and otherwise takes the oldest block of the queue, whole, into
  -- the caller's block and leaves such a ring.
  pub get_rb_data-queue :
      (block : List ℕ) (r : RingBuf)
      → IsRing r
      → length block ≡ blk_size
      → ((get_rb_data max_que_num blk_size block r ≡ none) × (queue r ≡ []))
        ⊎ ((x : List ℕ) × (r' : RingBuf) × (get_rb_data max_que_num blk_size block r ≡ some (x, r'))
            × IsRing r'
            × (queue r ≡ x ∷ queue r'))
  unfolding get_rb_data
  get_rb_data-queue block r v d = elim (Nat-cases r.num_full) [
    | inl e ↦ inl (rw (e, get_rb_data) refl, rw e refl)
    | inr (n, e) ↦
        let r' : RingBuf = record r {
          start_idx = (r.start_idx + 1) % max_que_num;
          num_full = r.num_full - 1;
        } in
        inr (
          r.shm_hdl r.start_idx,
          r',
          rw (e, get_rb_data)
              (rw
                (
                  suc-not_zero n,
                  copy_block-whole blk_size (r.shm_hdl r.start_idx) block
                      (v.sized r.start_idx v.start) d,
                )
                refl),
          record {
            fits = v.fits;
            start = mod-lt (r.start_idx + 1) (omega (arith, v.start));
            full = omega (arith, v.full);
            sized = v.sized;
          },
          rw e (rw (suc-pred n) refl),
        )
  ]

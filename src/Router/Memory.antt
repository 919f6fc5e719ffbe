-- ===== src/Router/Memory.antt =====
-- The shared memory is divided between the used and the free nodes, whatever the clients do, as long
-- as no buffer of no bytes is asked for.
pub mod Release
pub mod Grant
pub mod Messages
pub mod Listen
use udaq.Base.{
  ℕ, ◌+◌, ◌-◌, ◌≤◌, ◌<◌, ◌≡◌, refl, ◌&&◌, List, [], ◌∷◌, ◌++◌, arith, ltb, leb, if◌then◌else◌, All,
  All-append, All-split, pos,
}
use udaq.Router.Shm.{Shm, Walk, no_fit, whole, cut, walk, shm_free_insert, init_shm}
use udaq.Router.State.{Router}
use udaq.Router.Shm.FreeList.{
  times, bytes, IsFree, Outside, insert-times, insert-IsFree, Fits, walk-Fits,
}

-- A used node is not empty and lies inside the memory.
abbrev pub Inside : ℕ → Shm → Type 0
Inside n s = (0 < s.size) × (s.buf + s.size ≤ n)

-- Each byte of the memory is in one node, used or free, and no byte is outside.
pub record MemOk (n : ℕ) (used free : List Shm) : Type 0 where
  pub divided : (x : ℕ) → times x used + times x free ≡ (if ltb x n then 1 else 0)
  pub sorted : IsFree 0 n free
  pub inside : All (Inside n) used

pub times-append : (x : ℕ) (ss ts : List Shm) → times x (ss ++ ts) ≡ times x ss + times x ts
times-append x [] ts = omega arith
times-append x (s ∷ ss) ts = omega (arith, times-append x ss ts)

-- A node that is in use has no free byte.
used-Outside :
    (n : ℕ) (before : List Shm) (s : Shm) (after free : List Shm)
    → MemOk n (before ++ s ∷ after) free
    → Outside s free
used-Outside n before s after free v x l h =
    ground (arith, v.divided x, times-append x before (s ∷ after))

-- The node goes back to the free list.
pub MemOk-free :
    (n : ℕ) (before : List Shm) (s : Shm) (after free : List Shm) (k : ℕ)
    → MemOk n (before ++ s ∷ after) free
    → MemOk n (before ++ after) (shm_free_insert (record s { count = k }) free).1
MemOk-free n before s after free k v = record {
  divided = λ x. omega (
    arith,
    v.divided x,
    times-append x before (s ∷ after),
    times-append x before after,
    (insert-times x 0 n s' free placed.1.0 v.sorted out).1,
  );
  sorted = insert-IsFree 0 n s' free placed.1.0 (omega arith) placed.1.1 v.sorted out;
  inside = All-append _ before after placed.0 placed.2;
}
  where
    s' : Shm
    s' = record s { count = k }

    placed : All (Inside n) before × Inside n s × All (Inside n) after
    placed = All-split (Inside n) before s after v.inside

    out : Outside s' free
    out = used-Outside n before s after free v

-- Only the count of the node changes.
pub MemOk-count :
    (n : ℕ) (before : List Shm) (s s' : Shm) (after free : List Shm)
    → s'.buf ≡ s.buf
    → s'.size ≡ s.size
    → MemOk n (before ++ s ∷ after) free
    → MemOk n (before ++ s' ∷ after) free
MemOk-count n before s s' after free e f v = record {
  divided = λ x.
      ground
        (arith, v.divided x, times-append x before (s ∷ after), times-append x before (s' ∷ after));
  sorted = v.sorted;
  inside =
      All-append (Inside n) before (s' ∷ after) placed.0
        ((omega (arith, placed.1, f), omega (arith, placed.1, e, f)), placed.2);
}
  where
    placed : All (Inside n) before × Inside n s × All (Inside n) after
    placed = All-split (Inside n) before s after v.inside

-- A block leaves the free list for the end of the used list.
pub MemOk-take :
    (n : ℕ) (used : List Shm) (s : Shm) (free rest : List Shm)
    → MemOk n used free
    → 0 < s.size
    → s.buf + s.size ≤ n
    → IsFree 0 n rest
    → ((x : ℕ) → times x free ≡ bytes x s + times x rest)
    → MemOk n (used ++ s ∷ []) rest
MemOk-take n used s free rest v p q f e = record {
  divided = λ x. omega (arith, v.divided x, times-append x used (s ∷ []), e x);
  sorted = f;
  inside = All-append (Inside n) used (s ∷ []) v.inside ((p, q), tt);
}

pub init_shm-MemOk : (n : ℕ) → 0 < n → MemOk n (init_shm n).0 (init_shm n).1
unfolding init_shm
init_shm-MemOk n p = record { divided = λ x. ground arith; sorted = ground arith; inside = tt }

-- Each byte of the shared memory of the router is in one node.
abbrev pub RouterOk : Router → Type 0
RouterOk r = MemOk r.shmsize r.used r.free

-- ===== src/Router/Shm.antt =====
-- The shared memory allocator of the router: the nodes of src/router/header/router_priv.h, get_shm
-- and shm_free_insert of src/router/src/listen.c. A list is a ring without its head node: the head of
-- the list is `next` of the ring's head, and `insert_item` before the ring's head is an append.
pub mod FreeList
use udaq.Base.{
  ℕ, ◌+◌, ◌-◌, ◌*◌, ◌/◌, ◌≡◌, Bool, true, false, List, [], ◌∷◌, ltb, leb, ◌==◌, if◌then◌else◌, ℤ,
  pos, negsuc,
}

-- `rtr_shmbuf_t`: `buf` is the position from the top of the shared memory, `count` the references.
pub record Shm : Type 0 where
  pub buf : ℕ
  pub size : ℕ
  pub count : ℕ

-- `((size+3)>>2)<<2`
unfoldable pub round_up : ℕ → ℕ
round_up size = (size + 3) / 4 * 4

-- What the walk of `get_shm` over the free list comes to: a node of the size asked for leaves the
-- list, a larger one is cut from the front, or no node is large enough.
pub data Walk : Type 0 where
  no_fit : Walk
  whole : Shm → List Shm → Walk
  cut : Shm → List Shm → Walk

abbrev pub past : Shm → Walk → Walk
past s no_fit = no_fit
past s (whole n rest) = whole n (s ∷ rest)
past s (cut n rest) = cut n (s ∷ rest)

unfoldable pub walk : ℕ → List Shm → Walk
walk size [] = no_fit
walk size (s ∷ ss) =
    let rest = walk size ss in
    if s.size == size
    then whole s ss
    else if ltb size s.size
    then cut (record { buf = s.buf; size = size; count = 0 })
        (record s { buf = s.buf + size; size = s.size - size } ∷ ss)
    else past s rest

abbrev pub keep : Shm → ℤ × List Shm → ℤ × List Shm
keep t (code, ts) = (code, t ∷ ts)

-- The branch of `shm_free_insert` where the block begins at the end of the node `t`.
unfoldable pub join_after : Shm → Shm → List Shm → ℤ × List Shm
join_after s t [] = (pos 0, record t { size = t.size + s.size } ∷ [])
join_after s t (u ∷ us) =
    if u.buf == s.buf + s.size
    then (pos 0, record t { size = t.size + (s.size + u.size) } ∷ us)
    else if ltb u.buf (s.buf + s.size)
    then (negsuc 0, t ∷ u ∷ us)
    else (pos 0, record t { size = t.size + s.size } ∷ u ∷ us)

-- The result is 0, or -1 where the block overlaps a free one; that block is then lost.
unfoldable pub shm_free_insert : Shm → List Shm → ℤ × List Shm
unfolding join_after
shm_free_insert s [] = (pos 0, s ∷ [])
shm_free_insert s (t ∷ ts) =
    let rest = shm_free_insert s ts in
    if leb (s.buf + s.size) t.buf
    then (if s.buf + s.size == t.buf
        then (pos 0, record t { buf = s.buf; size = t.size + s.size } ∷ ts)
        else (pos 0, s ∷ t ∷ ts))
    else if ltb s.buf (t.buf + t.size)
    then (negsuc 0, t ∷ ts)
    else if s.buf == t.buf + t.size
    then join_after s t ts
    else keep t rest

-- `init_shm`: no node is in use, and one free node covers the memory.
unfoldable pub init_shm : ℕ → List Shm × List Shm
init_shm shmsize = ([], record { buf = 0; size = shmsize; count = 0 } ∷ [])

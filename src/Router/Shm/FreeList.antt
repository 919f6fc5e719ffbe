-- ===== src/Router/Shm/FreeList.antt =====
-- The free list stays sorted, coalesced and inside the memory, and holds every free byte once.
use udaq.Base.{
  ℕ, ◌+◌, ◌≤◌, ◌<◌, ◌≡◌, refl, ◌&&◌, List, [], ◌∷◌, arith, ltb, leb, ◌==◌, inl, inr, All,
  Bool-cases, if◌then◌else◌, pos,
}
use udaq.Router.Shm.{Shm, Walk, no_fit, whole, cut, past, walk, join_after, shm_free_insert}

-- How many blocks of a list hold the byte at position `x`.
abbrev pub bytes : ℕ → Shm → ℕ
bytes x s = if leb s.buf x && ltb x (s.buf + s.size) then 1 else 0

abbrev pub times : ℕ → List Shm → ℕ
times x [] = 0
times x (s ∷ ss) = bytes x s + times x ss

-- The blocks of the list lie in [lo, hi), none is empty, and between two there is a gap.
abbrev pub IsFree : ℕ → ℕ → List Shm → Type 0
IsFree lo hi [] = Unit {0}
IsFree lo hi (s ∷ ss) =
    (lo ≤ s.buf) × (0 < s.size) × (s.buf + s.size ≤ hi) × IsFree (s.buf + s.size + 1) hi ss

pub IsFree-mono : (lo lo' hi : ℕ) (ss : List Shm) → lo' ≤ lo → IsFree lo hi ss → IsFree lo' hi ss
IsFree-mono lo lo' hi [] h f = tt
IsFree-mono lo lo' hi (s ∷ ss) h f = (omega arith, f.1, f.2, f.3)

times-below : (x lo hi : ℕ) (ss : List Shm) → IsFree lo hi ss → x < lo → times x ss ≡ 0
times-below x lo hi [] f h = refl
times-below x lo hi (s ∷ ss) f h = ground (arith, times-below x (s.buf + s.size + 1) hi ss)

-- No byte of the block is free.
abbrev pub Outside : Shm → List Shm → Type 0
Outside s ss = (x : ℕ) → s.buf ≤ x → x < s.buf + s.size → times x ss ≡ 0

join_after-times :
    (x lo hi : ℕ) (s t : Shm) (ts : List Shm)
    → s.buf ≡ t.buf + t.size
    → 0 < s.size
    → IsFree lo hi (t ∷ ts)
    → Outside s ts
    → ((join_after s t ts).0 ≡ pos 0)
      × (times x (join_after s t ts).1 ≡ bytes x s + times x (t ∷ ts))
unfolding join_after
join_after-times x lo hi s t [] e p f o = ground arith
join_after-times x lo hi s t (u ∷ us) e p f o = ground (arith, o u.buf)

join_after-IsFree :
    (lo hi : ℕ) (s t : Shm) (ts : List Shm)
    → s.buf ≡ t.buf + t.size
    → 0 < s.size
    → s.buf + s.size ≤ hi
    → IsFree lo hi (t ∷ ts)
    → Outside s ts
    → IsFree lo hi (join_after s t ts).1
unfolding join_after
join_after-IsFree lo hi s t [] e p q f o = ground arith
join_after-IsFree lo hi s t (u ∷ us) e p q f o = ground (arith, o u.buf)

Outside-tail : (s t : Shm) (ts : List Shm) → Outside s (t ∷ ts) → Outside s ts
Outside-tail s t ts o x h k = omega (arith, o x h k)

-- A byte that the block and a node of the list share is not outside.
overlap :
    (s t : Shm) (ts : List Shm)
    → 0 < t.size
    → Outside s (t ∷ ts)
    → t.buf < s.buf + s.size
    → s.buf < t.buf + t.size
    → 0 < s.size
    → ⊥
overlap s t ts p o h k q = ground (arith, o s.buf, o t.buf)

-- A block that is not empty and has no free byte goes into a free list without an error, and each byte of
-- the list afterwards is a byte of the block or was one of the list, with none twice or lost.
pub insert-times :
    (x lo hi : ℕ) (s : Shm) (ts : List Shm)
    → 0 < s.size
    → IsFree lo hi ts
    → Outside s ts
    → ((shm_free_insert s ts).0 ≡ pos 0)
      × (times x (shm_free_insert s ts).1 ≡ bytes x s + times x ts)
unfolding shm_free_insert
insert-times x lo hi s [] p f o = ground arith
insert-times x lo hi s (t ∷ ts) p f o = ground (
  arith,
  overlap s t ts f.1 o,
  insert-times x (t.buf + t.size + 1) hi s ts p f.3 (Outside-tail s t ts o),
  join_after-times x lo hi s t ts,
  Outside-tail s t ts o,
)

-- A block inside the memory that is not empty and has no free byte goes into a free list: the list stays
-- sorted, without empty nodes, and merged, as neighbours are joined on both sides.
pub insert-IsFree :
    (lo hi : ℕ) (s : Shm) (ts : List Shm)
    → 0 < s.size
    → lo ≤ s.buf
    → s.buf + s.size ≤ hi
    → IsFree lo hi ts
    → Outside s ts
    → IsFree lo hi (shm_free_insert s ts).1
unfolding shm_free_insert
insert-IsFree lo hi s [] p l q f o = ground arith
insert-IsFree lo hi s (t ∷ ts) p l q f o = ground (
  arith,
  overlap s t ts f.1 o,
  insert-IsFree (t.buf + t.size + 1) hi s ts,
  join_after-IsFree lo hi s t ts,
  Outside-tail s t ts o,
)

-- What a walk for `size` bytes over a free list of [lo, hi) comes to.
abbrev pub Fits : (size lo hi : ℕ) → List Shm → Walk → Type 0
Fits size lo hi ss no_fit = All (λ s. s.size < size) ss
Fits size lo hi ss (whole n rest) =
    (n.size ≡ size)
    × (lo ≤ n.buf)
    × (n.buf + size ≤ hi)
    × IsFree lo hi rest
    × ((x : ℕ) → times x ss ≡ bytes x n + times x rest)
Fits size lo hi ss (cut n rest) =
    (n.size ≡ size)
    × (lo ≤ n.buf)
    × (n.buf + size ≤ hi)
    × IsFree lo hi rest
    × ((x : ℕ) → times x ss ≡ bytes x n + times x rest)
    × (n.count ≡ 0)

Fits-past :
    (size lo hi : ℕ) (t : Shm) (ss : List Shm) (w : Walk)
    → IsFree lo hi (t ∷ ss)
    → t.size < size
    → Fits size (t.buf + t.size + 1) hi ss w
    → Fits size lo hi (t ∷ ss) (past t w)
Fits-past size lo hi t ss no_fit f h g = (h, g)
Fits-past size lo hi t ss (whole n rest) f h g =
    (g.0, omega arith, g.2, (f.0, f.1, f.2, g.3), λ x. omega (arith, g.4 x))
Fits-past size lo hi t ss (cut n rest) f h g =
    (g.0, omega arith, g.2, (f.0, f.1, f.2, g.3), λ x. omega (arith, g.4 x), g.5)

-- A walk for at least a byte over a free list finds no node only where every node is too small; otherwise it
-- gives a block of just the size asked for, inside the memory, the rest is a free list again, and the
-- bytes of the old list are those of the block and of the rest.
pub walk-Fits :
    (size lo hi : ℕ) (ss : List Shm)
    → 0 < size
    → IsFree lo hi ss
    → Fits size lo hi ss (walk size ss)
unfolding walk
walk-Fits size lo hi [] p f = tt
walk-Fits size lo hi (s ∷ ss) p f = elim (Bool-cases (s.size == size)) [
  | inl e ↦
      rw e (ground arith, f.0, ground arith, IsFree-mono _ lo hi ss (omega arith) f.3, λ x. refl)
  | inr e ↦ rw e (elim (Bool-cases (ltb size s.size)) [
    | inl l ↦ rw l (
      refl,
      f.0,
      ground arith,
      (ground arith, ground arith, ground arith, IsFree-mono _ _ hi ss (ground arith) f.3),
      λ x. ground arith,
      refl,
    )
    | inr l ↦ rw l (
        Fits-past size lo hi s ss (walk size ss) f (ground arith)
          (walk-Fits size (s.buf + s.size + 1) hi ss p f.3))
  ])
]

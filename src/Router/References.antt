-- ===== src/Router/References.antt =====
-- Reference counts: how many processes hold a buffer, against the counts of the used nodes.
pub mod Release
pub mod Grant
pub mod Remove
pub mod Purge
pub mod Protocol
pub mod Messages
pub mod Exact
use udaq.Base.{
  ℕ, zero, suc, ◌+◌, ◌-◌, ◌≤◌, ◌≡◌, refl, Bool, true, false, Option, none, some, List, [], ◌∷◌,
  ◌++◌, arith, leb, ◌==◌, if◌then◌else◌, pos, dec, inl, inr, Bool-cases, Option-cases,
}
use udaq.Router.Shm.{Shm, shm_free_insert}
use udaq.Router.State.{Proc, Router, find_proc, at_proc}
use udaq.Router.Holds.{remove_first, pl_remove_buf, pl_add_buf, find_used, drop_ref}
use udaq.Router.Buffers.{holds_of}

-- 1 where the positions are the same.
abbrev pub hit : ℕ → ℕ → ℕ
hit b c = if b == c then 1 else 0

abbrev pub count : ℕ → List ℕ → ℕ
count b [] = 0
count b (c ∷ cs) = hit b c + count b cs

-- How many times the buffer at `b` is held.
abbrev pub holders : ℕ → List Proc → ℕ
holders b [] = 0
holders b (p ∷ ps) = count b p.bl + holders b ps

-- The references that the used nodes at `b` count.
abbrev pub refs : ℕ → List Shm → ℕ
refs b [] = 0
refs b (s ∷ ss) = (if b == s.buf then s.count else 0) + refs b ss

-- No buffer is held more often than it counts, so a buffer that is held is in use.
abbrev pub Safe : Router → Type 0
Safe r = (b : ℕ) → holders b r.pl ≤ refs b r.used

pub count-append : (b : ℕ) (cs ds : List ℕ) → count b (cs ++ ds) ≡ count b cs + count b ds
count-append b [] ds = omega arith
count-append b (c ∷ cs) ds = omega (arith, count-append b cs ds)

pub holders-append :
    (b : ℕ) (ps qs : List Proc) → holders b (ps ++ qs) ≡ holders b ps + holders b qs
holders-append b [] qs = omega arith
holders-append b (p ∷ ps) qs = omega (arith, holders-append b ps qs)

pub refs-append : (b : ℕ) (ss ts : List Shm) → refs b (ss ++ ts) ≡ refs b ss + refs b ts
refs-append b [] ts = omega arith
refs-append b (s ∷ ss) ts = omega (arith, refs-append b ss ts)

-- What is left of a list without one entry; a list without the entry stays.
abbrev Removed : ℕ → List ℕ → Option (List ℕ) → Type 0
Removed buf cs none = count buf cs ≡ 0
Removed buf cs (some rest) = (b : ℕ) → count b cs ≡ hit b buf + count b rest

remove_first-Removed : (buf : ℕ) (cs : List ℕ) → Removed buf cs (remove_first buf cs)
unfolding remove_first
remove_first-Removed buf [] = refl
remove_first-Removed buf (c ∷ cs) = elim (Bool-cases (c == buf)) [
  | inl e ↦ rw (e, remove_first) (λ b. ground arith)
  | inr e ↦ elim (Option-cases (remove_first buf cs)) [
    | inl g ↦
        rw (e, g, remove_first) (let h = rw g at (remove_first-Removed buf cs) in ground arith)
    | inr (rest, g) ↦
        rw (e, g, remove_first)
          (let h = rw g at (remove_first-Removed buf cs) in λ b. omega (arith, h b))
  ]
]

-- A process gives one of its buffers back, if it holds it.
pl_remove_buf-count :
    (b buf : ℕ) (p : Proc)
    → count b (pl_remove_buf buf p).bl + (if leb 1 (count buf p.bl) then hit b buf else 0)
      ≡ count b p.bl
unfolding pl_remove_buf
pl_remove_buf-count b buf p = elim (Option-cases (remove_first buf p.bl)) [
  | inl g ↦ rw (g, pl_remove_buf) (let h = rw g at (remove_first-Removed buf p.bl) in ground arith)
  | inr (rest, g) ↦
      rw (g, pl_remove_buf)
        (let h = rw g at (remove_first-Removed buf p.bl) in ground (arith, h b, h buf))
]

-- How often the first process with the pid holds the buffer.
abbrev pub held_by : ℕ → ℕ → List Proc → ℕ
held_by pid b pl = count b (holds_of (find_proc pid pl))

pub remove-holders :
    (b buf pid : ℕ) (pl : List Proc)
    → holders b (at_proc (pl_remove_buf buf) pid pl)
        + (if leb 1 (held_by pid buf pl) then hit b buf else 0)
      ≡ holders b pl
unfolding at_proc find_proc
remove-holders b buf pid [] = ground arith
remove-holders b buf pid (p ∷ ps) =
    ground (arith, pl_remove_buf-count b buf p, remove-holders b buf pid ps)

pub held_by-le : (pid b : ℕ) (pl : List Proc) → held_by pid b pl ≤ holders b pl
unfolding find_proc
held_by-le pid b [] = omega arith
held_by-le pid b (p ∷ ps) = ground (arith, held_by-le pid b ps)

pub add-holders :
    (b buf pid : ℕ) (pl : List Proc)
    → holders b (at_proc (pl_add_buf buf) pid pl) ≤ holders b pl + hit b buf
unfolding at_proc pl_add_buf
add-holders b buf pid [] = omega arith
add-holders b buf pid (p ∷ ps) =
    ground (arith, count-append b p.bl (buf ∷ []), add-holders b buf pid ps)

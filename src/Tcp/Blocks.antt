-- ===== src/Tcp/Blocks.antt =====
-- What a client reads, by src/router/tools/tcplib.c.
use udaq.Base.{
  ℕ, ◌+◌, ◌-◌, ◌<◌, ◌≡◌, refl, sym, ap, ◌∙◌, true, false, some, List, [], ◌∷◌, ◌++◌, leb, pos,
  length, length-append, arith, if◌then◌else◌, Bool-cases, inl, inr,
}
use mathlib.Core.List.{append_assoc, append-nil}
use udaq.Tcp.{Read, bytes, ended, take, drop, leftover, filled, fill, reply_to, tcp_get_buf}
pub use udaq.Tcp.Pieces.{pieces, joined}
use udaq.Tcp.Pieces.{take-append, drop-append, append-split, pieces-leftover}

-- No piece is empty.
abbrev pub AreFull : List (List ℕ) → Type 0
AreFull [] = Unit {0}
AreFull (c ∷ cs) = (0 < length c) × AreFull cs

fill-step :
    (bufsize : ℕ) (buf c : List ℕ) (rs : List Read)
    → 0 < length c
    → fill bufsize buf (bytes c ∷ rs) ≡ (
        if leb (bufsize - length buf) (length c)
        then some (
            filled
              (buf ++ take (bufsize - length buf) c)
              (leftover (drop (bufsize - length buf) c) rs))
        else fill bufsize (buf ++ c) rs)
unfolding fill
fill-step bufsize buf [] rs h = absurd (omega (arith, h))
fill-step bufsize buf (b ∷ c) rs h = refl

-- A piece with all that is wanted, and one with less.
fill-takes :
    (bufsize : ℕ) (buf x d c : List ℕ) (rs ts : List Read)
    → 0 < length c
    → bufsize - length buf ≡ length x
    → leb (length x) (length c) ≡ true
    → c ≡ x ++ d
    → leftover d rs ≡ ts
    → fill bufsize buf (bytes c ∷ rs) ≡ some (filled (buf ++ x) ts)
fill-takes bufsize buf x d c rs ts h w l g m =
    let front : take (length x) c ≡ x = ap (take (length x)) g ∙ take-append x d in
    let back : leftover (drop (length x) c) rs ≡ ts =
      ap (λ u. leftover (drop (length x) u) rs) g ∙ ap (λ u. leftover u rs) (drop-append x d) ∙ m in
    fill-step bufsize buf c rs h ∙ rw (w, l) (rw (front, back) refl)

fill-goes_on :
    (bufsize n : ℕ) (buf c : List ℕ) (rs : List Read)
    → 0 < length c
    → bufsize - length buf ≡ n
    → leb n (length c) ≡ false
    → fill bufsize buf (bytes c ∷ rs) ≡ fill bufsize (buf ++ c) rs
fill-goes_on bufsize n buf c rs h w l = fill-step bufsize buf c rs h ∙ rw (w, l) refl

fill-pieces :
    (bufsize : ℕ) (rs : List Read) (buf : List ℕ) (cs : List (List ℕ)) (x y : List ℕ)
    → AreFull cs
    → joined cs ≡ x ++ y
    → 0 < length x
    → bufsize - length buf ≡ length x
    → (ds : List (List ℕ)) × (fill bufsize buf (pieces cs ++ rs)
        ≡ some (filled (buf ++ x) (pieces ds ++ rs)))
      × (joined ds ≡ y)
fill-pieces bufsize rs buf [] [] y f e h w = absurd (omega (arith, h))
fill-pieces bufsize rs buf [] (a ∷ x) y f e h w = absurd (omega (arith, ap length e))
fill-pieces bufsize rs buf (c ∷ cs) x y f e h w = elim (Bool-cases (leb (length x) (length c))) [
  | inl l ↦
      let (d, g, k) = append-split c (joined cs) x y e (ground (arith, l)) in
      let (ds, m, n) = pieces-leftover rs d cs in
      (ds, fill-takes bufsize buf x d c (pieces cs ++ rs) (pieces ds ++ rs) f.0 w l g m, n ∙ k)
  | inr l ↦
      let (d, g, k) = append-split x y c (joined cs) (sym e) (ground (arith, l)) in
      let long = length-append c d in
      let same = ap length g in
      let more = length-append buf c in
      let want : bufsize - length (buf ++ c) ≡ length d = omega (arith, w, long, same, more) in
      let (ds, m, n) =
        fill-pieces bufsize rs (buf ++ c) cs d y f.1 (sym k) (ground (arith, l, long, same)) want in
      (
        ds,
        fill-goes_on bufsize (length x) buf c (pieces cs ++ rs) f.0 w l
            ∙ m
            ∙ ap (λ u. some (filled u (pieces ds ++ rs)))
                (append_assoc buf c d ∙ ap (λ u. buf ++ u) (sym g)),
        n,
      )
]

fill-ended :
    (bufsize : ℕ) (buf : List ℕ) (cs : List (List ℕ)) (rs : List Read)
    → AreFull cs
    → length buf + length (joined cs) < bufsize
    → fill bufsize buf (pieces cs ++ ended ∷ rs) ≡ some (filled (buf ++ joined cs) rs)
unfolding fill
fill-ended bufsize buf [] rs f l = rw (append-nil buf) refl
fill-ended bufsize buf (c ∷ cs) rs f l =
    let g = length-append buf c in
    let k = length-append c (joined cs) in
    let short : leb (bufsize - length buf) (length c) ≡ false = ground (arith, g, k, l) in
    fill-step bufsize buf c (pieces cs ++ ended ∷ rs) f.0
    ∙ rw short (
        fill-ended bufsize (buf ++ c) cs rs f.1 (omega (arith, g, k, l))
        ∙ ap (λ b. some (filled b rs)) (append_assoc buf c (joined cs)))

replied :
    (bs : List ℕ) (rs : List Read)
    → 0 < length bs
    → some (reply_to true (filled bs rs)) ≡ some (pos 0, bs, rs)
replied [] rs p = ground (arith, p)
replied (b ∷ bs) rs p = refl

-- A block of at least a byte, with anything behind it, that comes in any pieces, none of them empty, is put in the
-- buffer whole, and the call leaves every byte behind it, also where the last piece that it reads from goes on with them; it
-- returns 0 if the reply can be written.
pub tcp_get_buf-pieces :
    (cs : List (List ℕ)) (rs : List Read) (block behind : List ℕ)
    → AreFull cs
    → 0 < length block
    → joined cs ≡ block ++ behind
    → (ds : List (List ℕ)) × (tcp_get_buf true (length block) (pieces cs ++ rs)
        ≡ some (pos 0, block, pieces ds ++ rs))
      × (joined ds ≡ behind)
unfolding tcp_get_buf
tcp_get_buf-pieces cs rs block behind f l e =
    let (ds, g, k) = fill-pieces (length block) rs [] cs block behind f e l (omega arith) in
    (ds, rw (g, tcp_get_buf) (replied block (pieces ds ++ rs) l), k)

-- A connection that ends in the middle of a block, after at least a byte of it, looks like a whole
-- block: if the reply can be written the call returns 0, whatever part of the block has come.
tcp_get_buf-ended :
    (bufsize : ℕ) (cs : List (List ℕ)) (rs : List Read)
    → AreFull cs
    → 0 < length (joined cs)
    → length (joined cs) < bufsize
    → tcp_get_buf true bufsize (pieces cs ++ ended ∷ rs) ≡ some (pos 0, joined cs, rs)
unfolding tcp_get_buf
tcp_get_buf-ended bufsize cs rs f p l =
    rw (fill-ended bufsize [] cs rs f (omega (arith, l)), tcp_get_buf) (replied (joined cs) rs p)

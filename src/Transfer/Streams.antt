-- ===== src/Transfer/Streams.antt =====
-- What the loops of reads of src/router/tools get from a stream of bytes, however it comes in pieces.
use udaq.Base.{
  ℕ, zero, suc, ◌+◌, ◌-◌, ◌≤◌, ◌<◌, ◌≡◌, refl, sym, ap, ◌∙◌, Bool, true, false, List, [], ◌∷◌, ◌++◌,
  length, length-append, leb, arith, Bool-cases, inl, inr,
}
use mathlib.Core.List.{append-nil}
use udaq.Tcp.{Read, ended, ntohl}
use udaq.Tcp.Blocks.{pieces, joined}
pub use udaq.Tcp.Pieces.{take-append, drop-append, append-split, pieces-leftover}
use udaq.Transfer.{take, drop, zeros, htonl, got, waiting, read_loop, read_all, read_request}

pub take-length : (x : List ℕ) → take (length x) x ≡ x
take-length [] = refl
take-length (a ∷ x) = ap (λ u. a ∷ u) (take-length x)

pub length-take : (n : ℕ) (x : List ℕ) → n ≤ length x → length (take n x) ≡ n
length-take zero x h = refl
length-take (suc n) [] h = absurd (omega (arith, h))
length-take (suc n) (a ∷ x) h = omega (arith, length-take n x (omega (arith, h)))

pub length-drop : (n : ℕ) (x : List ℕ) → length (drop n x) ≡ length x - n
length-drop zero x = omega arith
length-drop (suc n) [] = omega arith
length-drop (suc n) (a ∷ x) = omega (arith, length-drop n x)

-- The loop gets the front of the stream, and no byte of what is behind it.
read_loop-joined_rest :
    (stops : Bool) (rs : List Read) (cs : List (List ℕ)) (x y : List ℕ)
    → joined cs ≡ x ++ y
    → 0 < length x
    → (ds : List (List ℕ)) × (read_loop stops (length x) (pieces cs ++ rs)
        ≡ got x (pieces ds ++ rs))
      × (joined ds ≡ y)
unfolding read_loop
read_loop-joined_rest stops rs [] [] y e h = absurd (omega (arith, h))
read_loop-joined_rest stops rs [] (a ∷ x) y e h = absurd (omega (arith, ap length e))
read_loop-joined_rest stops rs (c ∷ cs) x y e h = elim (Bool-cases (leb (length x) (length c))) [
  | inl f ↦
      let (d, g, k) = append-split c (joined cs) x y e (ground (arith, f)) in
      let (ds, l, m) = pieces-leftover rs d cs in
      (ds, rw (f, read_loop) (rw g (rw (take-append x d, drop-append x d) (ap (got x) l))), m ∙ k)
  | inr f ↦
      let (d, g, k) = append-split x y c (joined cs) (sym e) (ground (arith, f)) in
      let long : length x - length c ≡ length d = omega (arith, ap length g, length-append c d) in
      let (ds, l, m) = read_loop-joined_rest stops rs cs d y (sym k) (ground (arith, f, long)) in
      (ds, rw (f, long, l, read_loop) (ap (λ u. got u (pieces ds ++ rs)) (sym g)), m)
]

read_loop-joined :
    (stops : Bool) (cs : List (List ℕ)) (x y : List ℕ)
    → joined cs ≡ x ++ y
    → 0 < length x
    → (ds : List (List ℕ)) × (read_loop stops (length x) (pieces cs) ≡ got x (pieces ds))
      × (joined ds ≡ y)
read_loop-joined stops cs x y e h =
    let (ds, f, g) = read_loop-joined_rest stops [] cs x y e h in
    (
      ds,
      ap (read_loop stops (length x)) (sym (append-nil (pieces cs)))
          ∙ f
          ∙ ap (got x) (append-nil (pieces ds)),
      g,
    )

pub read_all-joined_rest :
    (rs : List Read) (cs : List (List ℕ)) (x y : List ℕ)
    → joined cs ≡ x ++ y
    → 0 < length x
    → (ds : List (List ℕ)) × (read_all (length x) (pieces cs ++ rs) ≡ got x (pieces ds ++ rs))
      × (joined ds ≡ y)
read_all-joined_rest rs cs x y e h = read_loop-joined_rest false rs cs x y e h

pub read_all-joined :
    (cs : List (List ℕ)) (x y : List ℕ)
    → joined cs ≡ x ++ y
    → 0 < length x
    → (ds : List (List ℕ)) × (read_all (length x) (pieces cs) ≡ got x (pieces ds)) × (joined ds ≡ y)
read_all-joined cs x y e h = read_loop-joined false cs x y e h

pub read_request-joined :
    (cs : List (List ℕ)) (x y : List ℕ)
    → joined cs ≡ x ++ y
    → 0 < length x
    → (ds : List (List ℕ)) × (read_request (length x) (pieces cs) ≡ got x (pieces ds))
      × (joined ds ≡ y)
read_request-joined cs x y e h = read_loop-joined true cs x y e h

-- Any number of reads that give 0.
abbrev pub ends : ℕ → List Read
ends zero = []
ends (suc n) = ended ∷ ends n

-- They bring nothing, and break nothing.
pub read_all-ends :
    (n : ℕ) (cs : List (List ℕ)) (size : ℕ)
    → length (joined cs) < size
    → read_all size (pieces cs ++ ends n) ≡ waiting
unfolding read_loop
read_all-ends zero [] size h = refl
read_all-ends (suc n) [] size h = read_all-ends n [] size h
read_all-ends n (c ∷ cs) size h =
    let m = length-append c (joined cs) in
    let short : leb size (length c) ≡ false = ground (arith, h, m) in
    rw (short, read_all-ends n cs (size - length c) (omega (arith, h, m)), read_loop) refl

pub read_all-nothing :
    (size : ℕ) (cs : List (List ℕ))
    → 0 < size
    → joined cs ≡ []
    → read_all size (pieces cs) ≡ waiting
unfolding read_loop
read_all-nothing size [] h e = refl
read_all-nothing size ([] ∷ cs) h e =
    let f : leb size 0 ≡ false = ground (arith, h) in
    let same : size - 0 ≡ size = omega arith in
    rw (f, same, read_loop) (rw (read_all-nothing size cs h e) refl)
read_all-nothing size ((b ∷ c) ∷ cs) h e = absurd (omega (arith, ap length e))

pub ntohl-htonl : (n : ℕ) → n < 4294967296 → ntohl (htonl n) ≡ n
ntohl-htonl n h = omega arith

pub zeros-append : (m n : ℕ) → zeros m ++ zeros n ≡ zeros (m + n)
zeros-append zero n = let e : n ≡ 0 + n = omega arith in ap zeros e
zeros-append (suc m) n =
    let e : suc (m + n) ≡ suc m + n = omega arith in ap (λ u. 0 ∷ u) (zeros-append m n) ∙ ap zeros e

-- ===== src/Tcp/Pieces.antt =====
-- Bytes that come in pieces, for the loops of reads of src/router/tools.
use udaq.Base.{ℕ, ◌≤◌, ◌≡◌, refl, ap, List, [], ◌∷◌, ◌++◌, length, arith}
use udaq.Tcp.{Read, bytes, take, drop, leftover}

-- The bytes as they come, in pieces.
abbrev pub pieces : List (List ℕ) → List Read
pieces [] = []
pieces (c ∷ cs) = bytes c ∷ pieces cs

abbrev pub joined : List (List ℕ) → List ℕ
joined [] = []
joined (c ∷ cs) = c ++ joined cs

pub take-append : (x d : List ℕ) → take (length x) (x ++ d) ≡ x
take-append [] d = refl
take-append (a ∷ x) d = ap (λ u. a ∷ u) (take-append x d)

pub drop-append : (x d : List ℕ) → drop (length x) (x ++ d) ≡ d
drop-append [] d = refl
drop-append (a ∷ x) d = drop-append x d

-- The longer of two fronts of a list begins with the shorter.
pub append-split :
    (c j x y : List ℕ)
    → c ++ j ≡ x ++ y
    → length x ≤ length c
    → (d : List ℕ) × (c ≡ x ++ d) × (d ++ j ≡ y)
append-split c j [] y e h = (c, refl, e)
append-split [] j (a ∷ x) y e h = absurd (omega (arith, h))
append-split (b ∷ c) j (a ∷ x) y e h =
    let (d, f, g) = append-split c j x y (cc) (omega arith) in (d, cc, g)

pub pieces-leftover :
    (rs : List Read) (d : List ℕ) (cs : List (List ℕ))
    → (ds : List (List ℕ)) × (leftover d (pieces cs ++ rs) ≡ pieces ds ++ rs)
      × (joined ds ≡ d ++ joined cs)
pieces-leftover rs [] cs = (cs, refl, refl)
pieces-leftover rs (b ∷ bs) cs = ((b ∷ bs) ∷ cs, refl, refl)

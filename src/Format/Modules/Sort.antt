-- ===== src/Format/Modules/Sort.antt =====
-- The exchanges of src/router/tools/check_format_lib.c sort a table.
use udaq.Base.{
  ℕ, zero, suc, ◌+◌, ◌-◌, ◌≤◌, ◌≡◌, refl, sym, ap, true, false, List, [], ◌∷◌, map, length, All,
  ltb, inl, inr, Bool-cases, arith,
}
use mathlib.Core.Path.{subst}
use mathlib.Core.List.{Perm}
use mathlib.Core.List.Perm
use udaq.Format.Modules.{exchange, rounds, bubble_sort}

-- The exchange of two whole entries.
abbrev pub plain {ℓ} : {A : Type ℓ} → A → A → A × A
plain a b = (b, a)

module _ {ℓ} {A : Type ℓ} (key : A → ℕ) where
  abbrev pub IsSorted : List A → Type 0
  IsSorted [] = Unit {0}
  IsSorted (x ∷ xs) = All (λ y. key x ≤ key y) xs × IsSorted xs

  pub exchange_swaps :
      (x y : A) (ys : List A)
      → ltb (key y) (key x) ≡ true
      → exchange key plain x (y ∷ ys)
        ≡ ((exchange key plain y ys).0, x ∷ (exchange key plain y ys).1)
  unfolding exchange
  exchange_swaps x y ys e = rw (e, exchange) refl

  pub exchange_stays :
      (x y : A) (ys : List A)
      → ltb (key y) (key x) ≡ false
      → exchange key plain x (y ∷ ys)
        ≡ ((exchange key plain x ys).0, y ∷ (exchange key plain x ys).1)
  unfolding exchange
  exchange_stays x y ys e = rw (e, exchange) refl

  -- The entry that the round puts in front is least.
  abbrev IsLeast : A → A × List A → Type 0
  IsLeast x r = (key (r.0) ≤ key x) × All (λ z. key (r.0) ≤ key z) (r.1)

  exchange-IsLeast : (x : A) (ys : List A) → IsLeast x (exchange key plain x ys)
  unfolding exchange
  exchange-IsLeast x [] = (omega arith, tt)
  exchange-IsLeast x (y ∷ ys) = elim (Bool-cases (ltb (key y) (key x))) [
    | inl e ↦
        let (a, b) = exchange-IsLeast y ys in
        let l : key ((exchange key plain y ys).0) ≤ key x = ground (arith, a, e) in
        subst (IsLeast x) (sym (exchange_swaps x y ys e)) (l, (l, b))
    | inr e ↦
        let (a, b) = exchange-IsLeast x ys in
        subst (IsLeast x) (sym (exchange_stays x y ys e)) (a, (ground (arith, a, e), b))
  ]

  pub exchange-All {κ} :
      (P : A → Type κ) (x : A) (ys : List A)
      → P x
      → All P ys
      → let (m, zs) = exchange key plain x ys in P m × All P zs
  unfolding exchange
  exchange-All P x [] p h = (p, tt)
  exchange-All P x (y ∷ ys) p h = elim (Bool-cases (ltb (key y) (key x))) [
    | inl e ↦ let (a, b) = exchange-All P y ys h.0 h.1 in rw (e, exchange) (a, (p, b))
    | inr e ↦ let (a, b) = exchange-All P x ys p h.1 in rw (e, exchange) (a, (h.0, b))
  ]

  exchange-perm :
      (x : A) (ys : List A) → let (m, zs) = exchange key plain x ys in Perm (m ∷ zs) (x ∷ ys)
  unfolding exchange
  exchange-perm x [] = Perm.rfl
  exchange-perm x (y ∷ ys) = elim (Bool-cases (ltb (key y) (key x))) [
    | inl e ↦
        subst (λ r. Perm (r.0 ∷ r.1) (x ∷ y ∷ ys)) (sym (exchange_swaps x y ys e))
          (Perm.trans (Perm.swap _ _ _) (Perm.cons x (exchange-perm y ys)))
    | inr e ↦
        subst (λ r. Perm (r.0 ∷ r.1) (x ∷ y ∷ ys)) (sym (exchange_stays x y ys e))
          (Perm.trans (Perm.trans (Perm.swap _ _ _) (Perm.cons y (exchange-perm x ys)))
            (Perm.swap _ _ _))
  ]

  pub length-exchange : (x : A) (ys : List A) → length ((exchange key plain x ys).1) ≡ length ys
  unfolding exchange
  length-exchange x [] = refl
  length-exchange x (y ∷ ys) = elim (Bool-cases (ltb (key y) (key x))) [
    | inl e ↦ rw (e, exchange) (ap suc (length-exchange y ys))
    | inr e ↦ rw (e, exchange) (ap suc (length-exchange x ys))
  ]

  pub rounds-All {κ} :
      (P : A → Type κ) (n : ℕ) (xs : List A) → All P xs → All P (rounds key plain n xs)
  unfolding rounds
  rounds-All P zero xs h = h
  rounds-All P (suc n) [] h = tt
  rounds-All P (suc n) (x ∷ xs) h =
      let (a, b) = exchange-All P x xs h.0 h.1 in (a, rounds-All P n _ b)

  rounds-IsSorted : (n : ℕ) (xs : List A) → length xs ≤ n + 1 → IsSorted (rounds key plain n xs)
  unfolding rounds
  rounds-IsSorted zero [] l = tt
  rounds-IsSorted zero (x ∷ []) l = (tt, tt)
  rounds-IsSorted zero (x ∷ y ∷ xs) l = absurd (omega (arith, l))
  rounds-IsSorted (suc n) [] l = tt
  rounds-IsSorted (suc n) (x ∷ xs) l =
      let (a, b) = exchange-IsLeast x xs in
      (
        rounds-All (λ z. key ((exchange key plain x xs).0) ≤ key z) n ((exchange key plain x xs).1)
            b,
        rounds-IsSorted n ((exchange key plain x xs).1) (omega (arith, l, length-exchange x xs)),
      )

  rounds-perm : (n : ℕ) (xs : List A) → Perm (rounds key plain n xs) xs
  unfolding rounds
  rounds-perm zero xs = Perm.rfl
  rounds-perm (suc n) [] = Perm.rfl
  rounds-perm (suc n) (x ∷ xs) =
      Perm.trans (Perm.cons _ (rounds-perm n ((exchange key plain x xs).1))) (exchange-perm x xs)

  -- With whole entries exchanged the result is the sorted table.
  pub bubble_sort-IsSorted : (xs : List A) → IsSorted (bubble_sort key plain xs)
  unfolding bubble_sort
  bubble_sort-IsSorted xs = rounds-IsSorted (length xs - 1) xs (omega arith)

  pub bubble_sort-perm : (xs : List A) → Perm (bubble_sort key plain xs) xs
  unfolding bubble_sort
  bubble_sort-perm xs = rounds-perm (length xs - 1) xs

  -- A `swap` that exchanges part of two entries exchanges the whole of two that `f` has made equal in the rest.
  module _ (swap : A → A → A × A) (f : A → A) (keeps : (x : A) → key (f x) ≡ key x)
      (whole : (x y : A) → swap (f x) (f y) ≡ (f y, f x)) where
    exchange-map :
        (x : A) (ys : List A)
        → let (m, zs) = exchange key plain x ys in
          exchange key swap (f x) (map f ys) ≡ (f m, map f zs)
    unfolding exchange
    exchange-map x [] = refl
    exchange-map x (y ∷ ys) = elim (Bool-cases (ltb (key y) (key x))) [
      | inl e ↦
          let e' : ltb (key (f y)) (key (f x)) ≡ true = ground (arith, e, keeps x, keeps y) in
          rw (e', exchange) (rw (whole x y, exchange-map y ys, e) refl)
      | inr e ↦
          let e' : ltb (key (f y)) (key (f x)) ≡ false = ground (arith, e, keeps x, keeps y) in
          rw (e', exchange) (rw (exchange-map x ys, e) refl)
    ]

    rounds-map :
        (n : ℕ) (xs : List A) → rounds key swap n (map f xs) ≡ map f (rounds key plain n xs)
    unfolding rounds
    rounds-map zero xs = refl
    rounds-map (suc n) [] = refl
    rounds-map (suc n) (x ∷ xs) =
        rw (exchange-map x xs) (
          ap (λ u. f ((exchange key plain x xs).0) ∷ u)
            (rounds-map n ((exchange key plain x xs).1)))

    pub length-map_f : (xs : List A) → length (map f xs) ≡ length xs
    length-map_f [] = refl
    length-map_f (x ∷ xs) = ap suc (length-map_f xs)

    pub bubble_sort-map :
        (xs : List A) → bubble_sort key swap (map f xs) ≡ map f (bubble_sort key plain xs)
    unfolding bubble_sort
    bubble_sort-map xs = rw (length-map_f xs) (rounds-map (length xs - 1) xs)

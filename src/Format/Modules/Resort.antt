-- ===== src/Format/Modules/Resort.antt =====
-- The sort of src/router/tools/check_format_lib.c keeps a table a table.
use udaq.Base.{
  ℕ, zero, suc, ◌-◌, ◌≡◌, ◌≢◌, refl, sym, ap, ◌∙◌, List, [], ◌∷◌, map, length, All, ltb, inl, inr,
  Bool-cases, arith,
}
use mathlib.Core.Path.{subst}
use udaq.Format.Modules.{exchange, rounds, bubble_sort}
use udaq.Format.Modules.Sort.{
  plain, exchange_swaps, exchange_stays, exchange-All, rounds-All, length-exchange, length-map_f,
  bubble_sort-map,
}
use udaq.Format.Modules.Tables.{AreDistinct, IsTable}

module _ {ℓ} {A : Type ℓ} (key : A → ℕ) where
  exchange-AreDistinct :
      (x : A) (ys : List A)
      → AreDistinct key (x ∷ ys)
      → AreDistinct key ((exchange key plain x ys).0 ∷ (exchange key plain x ys).1)
  unfolding exchange
  exchange-AreDistinct x [] h = h
  exchange-AreDistinct x (y ∷ ys) h = elim (Bool-cases (ltb (key y) (key x))) [
    | inl e ↦
        let (a, b) = exchange-AreDistinct y ys h.1 in
        let (c, d) = exchange-All key (λ z. key x ≢ key z) y ys (h.0).0 (h.0).1 in
        subst (λ r. AreDistinct key (r.0 ∷ r.1)) (sym (exchange_swaps key x y ys e))
          ((λ p. c (sym p), a), (d, b))
    | inr e ↦
        let (a, b) = exchange-AreDistinct x ys ((h.0).1, (h.1).1) in
        let (c, d) = exchange-All key (λ z. key y ≢ key z) x ys (λ p. (h.0).0 (sym p)) (h.1).0 in
        subst (λ r. AreDistinct key (r.0 ∷ r.1)) (sym (exchange_stays key x y ys e))
          ((λ p. c (sym p), a), (d, b))
  ]

  rounds-AreDistinct :
      (n : ℕ) (xs : List A) → AreDistinct key xs → AreDistinct key (rounds key plain n xs)
  unfolding rounds
  rounds-AreDistinct zero xs h = h
  rounds-AreDistinct (suc n) [] h = tt
  rounds-AreDistinct (suc n) (x ∷ xs) h =
      let (a, b) = exchange-AreDistinct x xs h in
      let (m, zs) = exchange key plain x xs in
      (rounds-All key (λ z. key m ≢ key z) n zs a, rounds-AreDistinct n zs b)

  length-rounds : (n : ℕ) (xs : List A) → length (rounds key plain n xs) ≡ length xs
  unfolding rounds
  length-rounds zero xs = refl
  length-rounds (suc n) [] = refl
  length-rounds (suc n) (x ∷ xs) = ap suc (length-rounds n _ ∙ length-exchange key x xs)

  map-AreDistinct :
      (f : A → A) (keeps : (x : A) → key (f x) ≡ key x) (xs : List A)
      → AreDistinct key xs
      → AreDistinct key (map f xs)
  map-AreDistinct f keeps [] h = tt
  map-AreDistinct f keeps (x ∷ xs) h = (apart xs h.0, map-AreDistinct f keeps xs h.1)
    where
      apart : (ys : List A) → All (λ y. key x ≢ key y) ys → All (λ y. key (f x) ≢ key y) (map f ys)
      apart [] k = tt
      apart (y ∷ ys) k = (rw (keeps x, keeps y) k.0, apart ys k.1)

  -- The clearing and the sort of a table leave a table.
  pub bubble_sort-IsTable :
      (limit : ℕ) (swap : A → A → A × A) (f : A → A) (keeps : (x : A) → key (f x) ≡ key x)
      (whole : (x y : A) → swap (f x) (f y) ≡ (f y, f x)) (xs : List A)
      → IsTable key limit xs
      → IsTable key limit (bubble_sort key swap (map f xs))
  unfolding bubble_sort
  bubble_sort-IsTable limit swap f keeps whole xs h =
      let n = length xs - 1 in
      let e : map f (rounds key plain n xs) ≡ bubble_sort key swap (map f xs) =
        sym (bubble_sort-map key swap f keeps whole xs) in
      subst (IsTable key limit) e (
        omega (
          arith,
          h.0,
          length-map_f key swap f keeps whole (rounds key plain n xs),
          length-rounds n xs,
        ),
        map-AreDistinct f keeps (rounds key plain n xs) (rounds-AreDistinct n xs h.1),
      )

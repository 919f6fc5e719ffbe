-- ===== src/Format/Modules/Tables.antt =====
-- The tables of src/router/tools/check_format_lib.c: no two entries for a module, and none beyond the end.
use udaq.Base.{
  ℕ, zero, suc, ◌≤◌, ◌<◌, ◌≡◌, ◌≢◌, refl, ap, List, [], ◌∷◌, ◌++◌, length, length-append, All, none,
  some, leb, ◌==◌, ◌⊎◌, inl, inr, Bool-cases, arith,
}
use udaq.Format.Modules.{find_index, enter, change_at}

module _ {ℓ} {A : Type ℓ} (key : A → ℕ) where
  -- Every number stands once.
  abbrev pub AreDistinct : List A → Type 0
  AreDistinct [] = Unit {0}
  AreDistinct (x ∷ xs) = All (λ y. key x ≢ key y) xs × AreDistinct xs

  abbrev pub IsTable : ℕ → List A → Type 0
  IsTable limit xs = (length xs ≤ limit) × AreDistinct xs

  find_index-bounds : (id : ℕ) (xs : List A) → find_index key id xs ≤ length xs
  unfolding find_index
  find_index-bounds id [] = omega arith
  find_index-bounds id (x ∷ xs) = ground (arith, find_index-bounds id xs)

  find_index_none :
      (id : ℕ) (xs : List A) → length xs ≤ find_index key id xs → All (λ y. key y ≢ id) xs
  unfolding find_index
  find_index_none id [] l = tt
  find_index_none id (x ∷ xs) l = elim (Bool-cases (key x == id)) [
    | inl e ↦ absurd (ground (arith, l, e))
    | inr e ↦ (ground (arith, e), find_index_none id xs (ground (arith, l, e)))
  ]

  append-AreDistinct :
      (xs : List A) (x : A)
      → AreDistinct xs
      → All (λ y. key y ≢ key x) xs
      → AreDistinct (xs ++ x ∷ [])
  append-AreDistinct [] x h k = (tt, tt)
  append-AreDistinct (y ∷ xs) x h k =
      (All-snoc (λ z. key y ≢ key z) xs x h.0 k.0, append-AreDistinct xs x h.1 k.1)
    where
      All-snoc : (P : A → Type 0) (ys : List A) (z : A) → All P ys → P z → All P (ys ++ z ∷ [])
      All-snoc P [] z h p = (p, tt)
      All-snoc P (w ∷ ys) z h p = (h.0, All-snoc P ys z h.1 p)

  -- What the search and the addition leave: the entry is within the table, which stays a table.
  pub enter-IsTable :
      (limit : ℕ) (fresh : A) (xs : List A)
      → IsTable limit xs
      → (enter key limit (key fresh) fresh xs ≡ none)
        ⊎ ((i : ℕ) × (ys : List A) × (enter key limit (key fresh) fresh xs ≡ some (i, ys))
            × (i < length ys)
            × IsTable limit ys)
  unfolding enter
  enter-IsTable limit fresh xs h =
      let i = find_index key (key fresh) xs in
      elim (Bool-cases (leb limit i)) [
        | inl e ↦ inl (rw (e, enter) refl)
        | inr e ↦ elim (Bool-cases (leb (length xs) i)) [
          | inl f ↦
              let added = length-append xs (fresh ∷ []) in
              let bound = find_index-bounds (key fresh) xs in
              inr (
                i,
                xs ++ fresh ∷ [],
                rw (e, f, enter) refl,
                ground (arith, added, bound),
                (
                  ground (arith, added, e, f, bound),
                  append-AreDistinct xs fresh h.1
                      (find_index_none (key fresh) xs (ground (arith, f))),
                ),
              )
          | inr f ↦ inr (i, xs, rw (e, f, enter) refl, ground (arith, f), h)
        ]
      ]

  change_at-length : (i : ℕ) (f : A → A) (xs : List A) → length (change_at i f xs) ≡ length xs
  unfolding change_at
  change_at-length i f [] = refl
  change_at-length zero f (x ∷ xs) = refl
  change_at-length (suc i) f (x ∷ xs) = ap suc (change_at-length i f xs)

  change_at-All :
      (n : ℕ) (i : ℕ) (f : A → A) (xs : List A)
      → ((x : A) → key (f x) ≡ key x)
      → All (λ y. n ≢ key y) xs
      → All (λ y. n ≢ key y) (change_at i f xs)
  unfolding change_at
  change_at-All n i f [] k h = tt
  change_at-All n zero f (x ∷ xs) k h = (rw (k x) h.0, h.1)
  change_at-All n (suc i) f (x ∷ xs) k h = (h.0, change_at-All n i f xs k h.1)

  change_at-AreDistinct :
      (i : ℕ) (f : A → A) (xs : List A)
      → ((x : A) → key (f x) ≡ key x)
      → AreDistinct xs
      → AreDistinct (change_at i f xs)
  unfolding change_at
  change_at-AreDistinct i f [] k h = tt
  change_at-AreDistinct zero f (x ∷ xs) k h = (rw (k x) h.0, h.1)
  change_at-AreDistinct (suc i) f (x ∷ xs) k h =
      (change_at-All (key x) i f xs k h.0, change_at-AreDistinct i f xs k h.1)

  pub change_at-IsTable :
      (limit i : ℕ) (f : A → A) (xs : List A)
      → ((x : A) → key (f x) ≡ key x)
      → IsTable limit xs
      → IsTable limit (change_at i f xs)
  change_at-IsTable limit i f xs k h =
      (omega (arith, h.0, change_at-length i f xs), change_at-AreDistinct i f xs k h.1)

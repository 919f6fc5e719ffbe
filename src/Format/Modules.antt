-- ===== src/Format/Modules.antt =====
-- The modules whose words the check keeps for display, by src/router/tools/check_format_lib.c: what their
-- tables share.
pub mod Fera
pub mod Lr3377
pub mod Pcos
pub mod Inpreg
pub mod Sort
pub mod Cleared
pub mod Tables
pub mod Bounds
pub mod Resort
use udaq.Base.{
  ℕ, zero, suc, ◌+◌, ◌-◌, List, [], ◌∷◌, ◌++◌, Option, none, some, ltb, leb, ◌==◌, if◌then◌else◌,
  length,
}
use udaq.Format.{Memory, words}

-- `for(i=0; i<len && ndat<limit; i++) dat[ndat++] = ptr[i];`
unfoldable pub keep_raw : ℕ → List ℕ → List ℕ → List ℕ
keep_raw limit [] dat = dat
keep_raw limit (w ∷ ws) dat =
    let rest = keep_raw limit ws (dat ++ w ∷ []) in if ltb (length dat) limit then rest else dat

module _ {ℓ} {A : Type ℓ} (key : A → ℕ) where
  -- `for(i=0; i<n; i++) if(table[i].id==id) break;`
  unfoldable pub find_index : ℕ → List A → ℕ
  find_index id [] = 0
  find_index id (x ∷ xs) = let rest = find_index id xs in if key x == id then 0 else rest + 1

  -- The search for a module with its addition to the table if it is new; none where the table is full.
  unfoldable pub enter : ℕ → ℕ → A → List A → Option (ℕ × List A)
  enter limit id fresh xs =
      let i = find_index id xs in
      if leb limit i
      then none
      else if leb (length xs) i
      then some (i, xs ++ fresh ∷ [])
      else some (i, xs)

-- `table[i]` is changed.
unfoldable pub change_at {ℓ} : {A : Type ℓ} → ℕ → (A → A) → List A → List A
change_at i f [] = []
change_at zero f (x ∷ xs) = f x ∷ xs
change_at (suc i) f (x ∷ xs) = x ∷ change_at i f xs

-- The sort of a table, where `swap` exchanges what the code exchanges of two entries.
module _ {ℓ} {A : Type ℓ} (key : A → ℕ) (swap : A → A → A × A) where
  -- The loop over `j`: the entry at `i` and those behind it.
  unfoldable pub exchange : A → List A → A × List A
  exchange x [] = (x, [])
  exchange x (y ∷ ys) =
      let (a, b) = if ltb (key y) (key x) then swap x y else (x, y) in
      let (m, zs) = exchange a ys in (m, b ∷ zs)

  -- `n` rounds of the loop over `i`.
  unfoldable pub rounds : ℕ → List A → List A
  rounds zero xs = xs
  rounds (suc n) [] = []
  rounds (suc n) (x ∷ xs) = let (m, zs) = exchange x xs in m ∷ rounds n zs

  unfoldable pub bubble_sort : List A → List A
  bubble_sort xs = rounds (length xs - 1) xs

-- ===== src/Format/Modules/Cleared.antt =====
-- check_fera_init, check_lr3377_init and check_pcos_init of src/router/tools/check_format_lib.c between events.
use udaq.Base.{ℕ, ◌≡◌, refl, List, map}
use mathlib.Core.List.{Perm}
use udaq.Format.Modules.{bubble_sort}
use udaq.Format.Modules.Sort.{
  plain, IsSorted, bubble_sort-IsSorted, bubble_sort-perm, bubble_sort-map,
}
use udaq.Format.Modules.Fera.{Fera, fera_id, swap_fera, clear_fera, check_fera_init}
use udaq.Format.Modules.Lr3377.{Lr3377, lr3377_id, swap_3377, clear_3377, check_lr3377_init}
use udaq.Format.Modules.Pcos.{Pcos, pcos_addr, swap_pcos, clear_pcos, check_pcos_init}

-- The table `zs` holds the cleared entries of `xs` in the order of their numbers.
abbrev pub SortedFrom {ℓ} : {A : Type ℓ} → (A → ℕ) → (A → A) → List A → List A → Type ℓ
SortedFrom {A = A} key clear xs zs =
    (ys : List A) × (zs ≡ map clear ys) × Perm ys xs × IsSorted key ys

SortedFrom-bubble_sort {ℓ} :
    {A : Type ℓ} (key : A → ℕ) (swap : A → A → A × A) (clear : A → A)
    → ((x : A) → key (clear x) ≡ key x)
    → ((x y : A) → swap (clear x) (clear y) ≡ (clear y, clear x))
    → (xs : List A) → SortedFrom key clear xs (bubble_sort key swap (map clear xs))
SortedFrom-bubble_sort key swap clear keeps whole xs = (
  bubble_sort key plain xs,
  bubble_sort-map key swap clear keeps whole xs,
  bubble_sort-perm key xs,
  bubble_sort-IsSorted key xs,
)

-- Although the loops exchange only the numbers of two modules, and for two of the three kinds the counts of
-- hits, every module comes out whole: each table is a permutation of what it was, sorted by number, with
-- the data of the last event cleared and with the counts of hits where they belong.
pub check_init-SortedFrom :
    (f : Fera) (l : Lr3377) (p : Pcos)
    → SortedFrom fera_id clear_fera f.mods (check_fera_init f).mods
      × SortedFrom lr3377_id clear_3377 l.mods (check_lr3377_init l).mods
      × SortedFrom pcos_addr clear_pcos p.mods (check_pcos_init p).mods
unfolding check_fera_init check_lr3377_init check_pcos_init
check_init-SortedFrom f l p = (
  SortedFrom-bubble_sort fera_id swap_fera clear_fera (λ x. refl) (λ x y. refl) f.mods,
  SortedFrom-bubble_sort lr3377_id swap_3377 clear_3377 (λ x. refl) (λ x y. refl) l.mods,
  SortedFrom-bubble_sort pcos_addr swap_pcos clear_pcos (λ x. refl) (λ x y. refl) p.mods,
)

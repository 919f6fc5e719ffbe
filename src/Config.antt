-- ===== src/Config.antt =====
-- The table of parameters of a configuration: src/config/config.c. The lines of a file are read, and the
-- numbers of an index or a value converted, by code that is a parameter here.
pub mod Lookup
mod Tests
use udaq.Base.{
  ℕ, zero, suc, ◌+◌, Bool, true, false, ◌&&◌, Option, none, some, List, [], ◌∷◌, ◌++◌, ◌==◌, leb,
  if◌then◌else◌,
}

-- A string, as its character codes.
abbrev pub Text : Type 0
Text = List ℕ

-- `Parameter_t`
pub record Parameter : Type 0 where
  pub name : Text
  pub index : Option Text
  pub value : Text

abbrev pub to_lower : ℕ → ℕ
to_lower c = if leb 65 c && leb c 90 then c + 32 else c

-- `!strcasecmp(s, t)`
unfoldable pub same_text : Text → Text → Bool
same_text [] [] = true
same_text (a ∷ s) (b ∷ t) = to_lower a == to_lower b && same_text s t
same_text _ _ = false

abbrev pub same_index : Option Text → Option Text → Bool
same_index none none = true
same_index (some i) (some j) = same_text i j
same_index _ _ = false

-- The test of `search_parameter_index` on one parameter.
abbrev pub is_named : Text → Option Text → Parameter → Bool
is_named name index p = same_text p.name name && same_index p.index index

-- none is -1.
unfoldable pub search_parameter_index : Text → Option Text → List Parameter → Option ℕ
unfolding same_text
search_parameter_index name index [] = none
search_parameter_index name index (p ∷ ps) =
    if is_named name index p
    then some 0
    else elim (search_parameter_index name index ps) [ none ↦ none | some i ↦ some (suc i) ]

abbrev pub parameter_at : ℕ → List Parameter → Option Parameter
parameter_at i [] = none
parameter_at zero (p ∷ ps) = some p
parameter_at (suc i) (p ∷ ps) = parameter_at i ps

unfoldable pub search_parameter : Text → Option Text → List Parameter → Option Parameter
unfolding search_parameter_index
search_parameter name index ps = elim (search_parameter_index name index ps) [
  | none ↦ none
  | some i ↦ parameter_at i ps
]

abbrev pub replace_at : ℕ → Parameter → List Parameter → List Parameter
replace_at i q [] = []
replace_at zero q (p ∷ ps) = q ∷ ps
replace_at (suc i) q (p ∷ ps) = p ∷ replace_at i q ps

-- The table of the source has room for 65536 parameters, which is not checked.
unfoldable pub register_parameter_if_new : Parameter → List Parameter → List Parameter
unfolding search_parameter_index
register_parameter_if_new p ps = elim (search_parameter_index p.name p.index ps) [
  | none ↦ ps ++ p ∷ []
  | some i ↦ replace_at i p ps
]

module _ (convert : Text → Text) where
  abbrev pub convert_index : Option Text → Option Text
  convert_index none = none
  convert_index (some i) = some (convert i)

  unfoldable pub register_parameter : Text → Option Text → Text → List Parameter → List Parameter
  unfolding register_parameter_if_new
  register_parameter name index value ps =
      register_parameter_if_new (record { name = name; index = convert_index index; value = value })
        ps

module _ {ℓ} {V : Type ℓ} (get_value : Text → V → V) where
  abbrev pub value_of : V → Option Parameter → V
  value_of default_value none = default_value
  value_of default_value (some p) = get_value p.value default_value

  -- config_get_l_value, config_get_d_value and config_get_s_value, by how they read a value: get_l_value,
  -- get_d_value, or the value itself. `index` is the text of the number `i_index`.
  unfoldable pub config_get_value : Text → Text → V → List Parameter → V
  unfolding search_parameter
  config_get_value name index default_value ps =
      let without = value_of default_value (search_parameter name none ps) in
      elim (search_parameter name (some index) ps) [
        | none ↦ without
        | some p ↦ get_value p.value default_value
      ]

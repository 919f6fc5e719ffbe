-- ===== src/Config/Tests.antt =====
-- The theorems about the table of parameters at concrete tables.
use udaq.Base.{◌≡◌, refl, Bool, none, some, List, [], ◌∷◌}
use udaq.Config.{Text, Parameter, search_parameter, register_parameter, same_text}
use udaq.Config.Lookup.{search_parameter-register_self}

abbrev as_it_is : Text → Text
as_it_is t = t

-- `ab=1` and `ab[2]=3`
abbrev two_set : List Parameter
two_set =
    record { name = 97 ∷ 98 ∷ []; index = none; value = 49 ∷ [] }
    ∷ record { name = 97 ∷ 98 ∷ []; index = some (50 ∷ []); value = 51 ∷ [] }
    ∷ []

-- `AB[2]=7` takes the place of the second.
search_parameter-register_self_example :
    search_parameter
      (65 ∷ 66 ∷ [])
      (some (50 ∷ []))
      (register_parameter as_it_is (65 ∷ 66 ∷ []) (some (50 ∷ [])) (55 ∷ []) two_set)
    ≡ some (record { name = 65 ∷ 66 ∷ []; index = some (50 ∷ []); value = 55 ∷ [] })
search_parameter-register_self_example =
    search_parameter-register_self as_it_is (65 ∷ 66 ∷ []) (some (50 ∷ [])) (55 ∷ []) two_set

without_index : same_text (65 ∷ 66 ∷ []) (97 ∷ 98 ∷ []) ≡ Bool.true
unfolding same_text
without_index = refl

abbrev as_text : Text → Text → Text
as_text value default_value = value

not_there : search_parameter (97 ∷ 98 ∷ []) (some (53 ∷ [])) two_set ≡ none
unfolding search_parameter
not_there = refl

-- ===== src/Config/Lookup.antt =====
-- What a search in the table of src/config/config.c finds after a registration.
use udaq.Base.{
  ◌≡◌, refl, sym, ap, ◌∙◌, Bool, true, false, ◌&&◌, Option, none, some, List, [], ◌∷◌,
  if◌then◌else◌, arith, inl, inr, Bool-cases, Option-cases,
}
use udaq.Config.{
  Text, Parameter, same_text, same_index, is_named, search_parameter_index, search_parameter,
  register_parameter_if_new, register_parameter, convert_index, config_get_value,
}

-- The search written as one recursion.
abbrev first : Text → Option Text → List Parameter → Option Parameter
first name index [] = none
first name index (p ∷ ps) = if is_named name index p then some p else first name index ps

search_parameter-first :
    (name : Text) (index : Option Text) (ps : List Parameter)
    → search_parameter name index ps ≡ first name index ps
unfolding search_parameter search_parameter_index
search_parameter-first name index [] = refl
search_parameter-first name index (p ∷ ps) = elim (Bool-cases (is_named name index p)) [
  | inl e ↦ rw (e, search_parameter, search_parameter_index) refl
  | inr e ↦ elim (Option-cases (search_parameter_index name index ps)) [
    | inl g ↦
        let h = rw (g, search_parameter) at (search_parameter-first name index ps) in
        rw (e, search_parameter, search_parameter_index) (rw g h)
    | inr (i, g) ↦
        let h = rw (g, search_parameter) at (search_parameter-first name index ps) in
        rw (e, search_parameter, search_parameter_index) (rw g h)
  ]
]

-- A registration, written as one recursion.
abbrev put : Parameter → List Parameter → List Parameter
put p [] = p ∷ []
put p (q ∷ qs) = if is_named p.name p.index q then p ∷ qs else q ∷ put p qs

register-put : (p : Parameter) (ps : List Parameter) → register_parameter_if_new p ps ≡ put p ps
unfolding register_parameter_if_new search_parameter_index
register-put p [] = refl
register-put p (q ∷ qs) = elim (Bool-cases (is_named p.name p.index q)) [
  | inl e ↦ rw (e, register_parameter_if_new, search_parameter_index) refl
  | inr e ↦ elim (Option-cases (search_parameter_index p.name p.index qs)) [
    | inl g ↦
        let h = rw (g, register_parameter_if_new) at (register-put p qs) in
        rw (e, register_parameter_if_new, search_parameter_index) (rw g (ap (λ u. q ∷ u) h))
    | inr (i, g) ↦
        let h = rw (g, register_parameter_if_new) at (register-put p qs) in
        rw (e, register_parameter_if_new, search_parameter_index) (rw g (ap (λ u. q ∷ u) h))
  ]
]

same_text_refl : (s : Text) → same_text s s ≡ true
unfolding same_text
same_text_refl [] = refl
same_text_refl (a ∷ s) = ground (arith, same_text_refl s)

-- Texts that are the same are the same as the same texts.
same_text-euclid : (s t u : Text) → same_text s t ≡ true → same_text s u ≡ same_text t u
unfolding same_text
same_text-euclid [] [] u h = refl
same_text-euclid [] (b ∷ t) u h = ground (arith, h)
same_text-euclid (a ∷ s) [] u h = ground (arith, h)
same_text-euclid (a ∷ s) (b ∷ t) [] h = refl
same_text-euclid (a ∷ s) (b ∷ t) (c ∷ u) h = ground (arith, h, same_text-euclid s t u)

same_index_refl : (i : Option Text) → same_index i i ≡ true
same_index_refl none = refl
same_index_refl (some i) = same_text_refl i

same_index-euclid : (i j k : Option Text) → same_index i j ≡ true → same_index i k ≡ same_index j k
same_index-euclid none none k h = refl
same_index-euclid none (some j) k h = ground (arith, h)
same_index-euclid (some i) none k h = ground (arith, h)
same_index-euclid (some i) (some j) none h = refl
same_index-euclid (some i) (some j) (some k) h = same_text-euclid i j k h

is_named-euclid :
    (p q : Parameter) (name : Text) (index : Option Text)
    → is_named p.name p.index q ≡ true
    → is_named name index q ≡ is_named name index p
is_named-euclid p q name index h =
    ground (arith, h, same_text-euclid q.name p.name name, same_index-euclid q.index p.index index)

first-put_self : (p : Parameter) (ps : List Parameter) → first p.name p.index (put p ps) ≡ some p
first-put_self p [] = ground (arith, same_text_refl p.name, same_index_refl p.index)
first-put_self p (q ∷ qs) =
    ground (arith, same_text_refl p.name, same_index_refl p.index, first-put_self p qs)

first-put_other :
    (p : Parameter) (name : Text) (index : Option Text) (ps : List Parameter)
    → is_named name index p ≡ false
    → first name index (put p ps) ≡ first name index ps
first-put_other p name index [] h = rw h refl
first-put_other p name index (q ∷ qs) h = elim (Bool-cases (is_named p.name p.index q)) [
  | inl e ↦ rw e (rw (h, is_named-euclid p q name index e ∙ h) refl)
  | inr e ↦ rw e (rw (first-put_other p name index qs h) refl)
]

and_false : (b : Bool) → b && false ≡ false
and_false true = refl
and_false false = refl

module _ (convert : Text → Text) where
  -- A search for the name and the index of a registration, as they were converted, finds the value that was
  -- registered, also where the same parameter had another value before.
  pub search_parameter-register_self :
      (name : Text) (index : Option Text) (value : Text) (ps : List Parameter)
      → search_parameter name
          (convert_index convert index)
          (register_parameter convert name index value ps)
        ≡ some (record { name = name; index = convert_index convert index; value = value })
  unfolding register_parameter
  search_parameter-register_self name index value ps =
      let p : Parameter = record {
        name = name;
        index = convert_index convert index;
        value = value;
      } in
      search_parameter-first name p.index (register_parameter_if_new p ps)
      ∙ ap (first name p.index) (register-put p ps)
      ∙ first-put_self p ps

  -- A search for any other name or index, case aside, finds what it found before the registration.
  search_parameter-register_other :
      (name other : Text) (index key : Option Text) (value : Text) (ps : List Parameter)
      → same_text name other && same_index (convert_index convert index) key ≡ false
      → search_parameter other key (register_parameter convert name index value ps)
        ≡ search_parameter other key ps
  unfolding register_parameter
  search_parameter-register_other name other index key value ps h =
      let p : Parameter = record {
        name = name;
        index = convert_index convert index;
        value = value;
      } in
      search_parameter-first other key (register_parameter_if_new p ps)
      ∙ ap (first other key) (register-put p ps)
      ∙ first-put_other p other key ps h
      ∙ sym (search_parameter-first other key ps)

  -- A value that is registered without an index is what a client gets for every index that has no value of
  -- its own, however it reads it.
  config_get_value-without_index {ℓ} :
      {V : Type ℓ} (get_value : Text → V → V) (name index value : Text) (default_value : V)
      (ps : List Parameter)
      → search_parameter name (some index) ps ≡ none
      → config_get_value get_value name index default_value
          (register_parameter convert name none value ps)
        ≡ get_value value default_value
  unfolding config_get_value
  config_get_value-without_index get_value name index value default_value ps h =
      rw
        (
          search_parameter-register_other name name none (some index) value ps
                (and_false (same_text name name))
              ∙ h,
          config_get_value,
        )
        (rw (search_parameter-register_self name none value ps) refl)

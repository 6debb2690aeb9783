-- ===== src/App/SortFilter/Kept.antt =====
-- What every operation of app/src/models/sortfiltermodel.cpp keeps of the base class.
use harbour_sailfishconnect.Base.{
  ℕ, ◌≤◌, String, Bool, true, not, ◌&&◌, ◌||◌, Option, none, some, List, [], ◌∷◌, index_of,
  if◌then◌else◌, ◌==◌, string_eq, eqb, ◌≡◌, refl, arith, if_elim, Bool-cases, inl, inr,
}
use harbour_sailfishconnect.App.SortFilter.{
  Variants, Filtering, SortFilterModel, role_key, filter_modes, new_model, sort_all, filter_rows,
  set_sort_ascending, invalidate_filter, change_filter_mode, set_filter_mode, set_sort_role,
  set_filter_role, set_filter_value, class_begin, on_role_names_changed, component_complete,
  source_changed, Change, ascending, mode, by_role, filter_by_role, value, begin, completed, source,
  apply,
}

module _ {V : Type 0} (qt : Variants V) where
  abbrev pub members : SortFilterModel V → Filtering V
  members m = record {
    mode = m.filter_mode_index;
    value = m.filter_value;
    was_complete = m.complete;
  }

  -- A completed model has its roles and its expression set in the base class, which has filtered the
  -- rows by the model's members as they are.
  pub record Applied (m : SortFilterModel V) : Type 0 where
    pub known_mode : m.filter_mode_index ≤ 2
    pub sorts_by : m.complete ≡ true → m.base_sort_role ≡ role_key m.sort_role m.roles
    pub filters_by : m.complete ≡ true → m.base_filter_role ≡ role_key m.filter_role m.roles
    pub matches_by :
        m.complete ≡ true → m.filter_mode_index ≡ 2 → m.filter_reg_exp ≡ qt.to_text m.filter_value
    pub filtered_by : m.complete ≡ true → m.filtered ≡ members m

  pub new_model-Applied : (invalid : V) → Applied (new_model qt invalid)
  unfolding new_model role_key
  new_model-Applied invalid = record {
    known_mode = omega arith;
    sorts_by = λ c. refl;
    filters_by = λ c. refl;
    matches_by = λ c e. ground (arith, e);
    filtered_by = λ c. refl;
  }

  -- What invalidate_filter needs of a model.
  invalidate_filter-Applied :
      (m : SortFilterModel V)
      → m.filter_mode_index ≤ 2
      → (m.complete ≡ true → m.base_sort_role ≡ role_key m.sort_role m.roles)
      → (m.complete ≡ true → m.base_filter_role ≡ role_key m.filter_role m.roles)
      → Applied (invalidate_filter qt m)
  unfolding invalidate_filter filter_rows
  invalidate_filter-Applied m k s f =
      if_elim Applied (not m.complete)
        (λ t. record {
          known_mode = k;
          sorts_by = s;
          filters_by = f;
          matches_by = λ c e. ground (arith, c, t);
          filtered_by = λ c. absurd (ground (arith, c, t));
        })
        (λ n. elim (Bool-cases (eqb m.filter_mode_index 2)) [
          | inl t ↦ rw t (record {
            known_mode = k;
            sorts_by = s;
            filters_by = f;
            matches_by = λ c e. refl;
            filtered_by = λ c. refl;
          })
          | inr d ↦ rw d (record {
            known_mode = k;
            sorts_by = s;
            filters_by = f;
            matches_by = λ c e. ground (arith, e, d);
            filtered_by = λ c. refl;
          })
        ])

  module _ (m : SortFilterModel V) (a : Applied m) where
    set_sort_ascending-Applied : (b : Bool) → Applied (set_sort_ascending qt b m)
    unfolding set_sort_ascending sort_all
    set_sort_ascending-Applied b =
        let kept : (o : Option Bool) → Applied (record m { sort_ascending = b; sorted = o }) = λ o.
          record {
            known_mode = a.known_mode;
            sorts_by = a.sorts_by;
            filters_by = a.filters_by;
            matches_by = a.matches_by;
            filtered_by = a.filtered_by;
          } in
        if_elim Applied ((m.sort_ascending && b) || (not m.sort_ascending && not b)) (λ t. a)
          (λ n.
            if_elim Applied (m.complete && not (m.sort_role == "")) (λ t. kept (some b))
              (λ f. kept m.sorted))

    change_filter_mode-Applied :
        (index : Option ℕ)
        → ((i : ℕ) → index ≡ some i → i ≤ 2)
        → Applied (change_filter_mode qt index m)
    unfolding change_filter_mode
    change_filter_mode-Applied none h = a
    change_filter_mode-Applied (some i) h =
        if_elim Applied (eqb i m.filter_mode_index) (λ t. a)
          (λ n.
            invalidate_filter-Applied (record m { filter_mode_index = i }) (h i refl) a.sorts_by
              a.filters_by)

    set_sort_role-Applied : (name : String) → Applied (set_sort_role qt name m)
    unfolding set_sort_role
    set_sort_role-Applied name =
        if_elim Applied (name == m.sort_role) (λ t. a)
          (λ n.
            if_elim Applied m.complete
              (λ t. record {
                known_mode = a.known_mode;
                sorts_by = λ c. refl;
                filters_by = a.filters_by;
                matches_by = a.matches_by;
                filtered_by = a.filtered_by;
              })
              (λ f. record {
                known_mode = a.known_mode;
                sorts_by = λ c. ground (arith, c, f);
                filters_by = a.filters_by;
                matches_by = a.matches_by;
                filtered_by = a.filtered_by;
              }))

    set_filter_role-Applied : (name : String) → Applied (set_filter_role qt name m)
    unfolding set_filter_role
    set_filter_role-Applied name =
        if_elim Applied (name == m.filter_role) (λ t. a)
          (λ n.
            if_elim Applied m.complete
              (λ t. record {
                known_mode = a.known_mode;
                sorts_by = a.sorts_by;
                filters_by = λ c. refl;
                matches_by = a.matches_by;
                filtered_by = a.filtered_by;
              })
              (λ f. record {
                known_mode = a.known_mode;
                sorts_by = a.sorts_by;
                filters_by = λ c. ground (arith, c, f);
                matches_by = a.matches_by;
                filtered_by = a.filtered_by;
              }))

    set_filter_value-Applied : (v : V) → Applied (set_filter_value qt v m)
    unfolding set_filter_value
    set_filter_value-Applied v =
        let next = if eqb m.filter_mode_index 0 then 1 else m.filter_mode_index in
        if_elim Applied (qt.same v m.filter_value) (λ t. a)
          (λ n.
            invalidate_filter-Applied (record m { filter_value = v; filter_mode_index = next })
              (ground (arith, a.known_mode)) a.sorts_by a.filters_by)

    on_role_names_changed-Applied :
        (roles : List (ℕ × String)) → Applied (source_changed qt roles m)
    unfolding source_changed on_role_names_changed
    on_role_names_changed-Applied roles =
        if_elim Applied (not m.complete)
          (λ t. record {
            known_mode = a.known_mode;
            sorts_by = λ c. ground (arith, c, t);
            filters_by = λ c. ground (arith, c, t);
            matches_by = a.matches_by;
            filtered_by = λ c. refl;
          })
          (λ n. record {
            known_mode = a.known_mode;
            sorts_by = λ c. refl;
            filters_by = λ c. refl;
            matches_by = a.matches_by;
            filtered_by = λ c. refl;
          })

    component_complete-Applied : Applied (component_complete qt m)
    unfolding component_complete on_role_names_changed sort_all
    component_complete-Applied =
        let n = on_role_names_changed qt (record m { complete = true }) in
        let done : Applied (invalidate_filter qt n) =
          invalidate_filter-Applied n a.known_mode (λ c. refl) (λ c. refl) in
        if_elim Applied (not ((invalidate_filter qt n).sort_role == ""))
          (λ t. record {
            known_mode = done.known_mode;
            sorts_by = done.sorts_by;
            filters_by = done.filters_by;
            matches_by = done.matches_by;
            filtered_by = done.filtered_by;
          })
          (λ f. done)

  index_known : (s : String) (i : ℕ) → index_of filter_modes s ≡ some i → i ≤ 2
  index_known s i h = ground (arith, h)

  apply-Applied : (c : Change V) (m : SortFilterModel V) → Applied m → Applied (apply qt c m)
  unfolding apply set_filter_mode class_begin
  apply-Applied (ascending b) m a = set_sort_ascending-Applied m a b
  apply-Applied (mode s) m a =
      change_filter_mode-Applied m a (index_of filter_modes s) (λ i. index_known s i)
  apply-Applied (by_role s) m a = set_sort_role-Applied m a s
  apply-Applied (filter_by_role s) m a = set_filter_role-Applied m a s
  apply-Applied (value v) m a = set_filter_value-Applied m a v
  apply-Applied begin m a = record {
    known_mode = a.known_mode;
    sorts_by = λ c. ground (arith, c);
    filters_by = λ c. ground (arith, c);
    matches_by = λ c e. ground (arith, c);
    filtered_by = λ c. absurd (ground (arith, c));
  }
  apply-Applied completed m a = component_complete-Applied m a
  apply-Applied (source roles) m a = on_role_names_changed-Applied m a roles

  abbrev pub apply_all : List (Change V) → SortFilterModel V → SortFilterModel V
  apply_all [] m = m
  apply_all (c ∷ cs) m = apply_all cs (apply qt c m)

  pub apply_all-Applied :
      (cs : List (Change V)) (m : SortFilterModel V) → Applied m → Applied (apply_all cs m)
  apply_all-Applied [] m a = a
  apply_all-Applied (c ∷ cs) m a = apply_all-Applied cs (apply qt c m) (apply-Applied c m a)

-- ===== src/App/SortFilter/Applied.antt =====
-- That app/src/models/sortfiltermodel.cpp passes its properties on to the base class, in whatever
-- order QML sets them.
use harbour_sailfishconnect.Base.{ℕ, String, Bool, true, not, ◌||◌, if◌then◌else◌, string_eq, eqb}
use harbour_sailfishconnect.App.SortFilter.{Variants, SortFilterModel, role_key, filter_accepts_row}

module _ {V : Type 0} (qt : Variants V) where
  -- Which rows the properties ask for: `data` is a row's data for a role, and `matches` tells if a
  -- text matches an expression.
  abbrev pub wanted : (String → String → Bool) → (ℕ → V) → SortFilterModel V → Bool
  wanted matches data_of m =
      let shown = data_of (role_key m.filter_role m.roles) in
      if eqb m.filter_mode_index 0
      then true
      else if eqb m.filter_mode_index 1
      then not (qt.is_valid m.filter_value) || qt.same m.filter_value shown
      else matches (qt.to_text m.filter_value) (qt.to_text shown)

  -- Which rows are shown: what the model answers to the base class, which has asked it with the
  -- members as they were at the last filtering, and applies its own role and expression.
  abbrev pub shows : (String → String → Bool) → (ℕ → V) → SortFilterModel V → Bool
  shows matches data_of m =
      let shown = data_of m.base_filter_role in
      filter_accepts_row qt (matches m.filter_reg_exp (qt.to_text shown)) shown (record m {
        filter_mode_index = m.filtered.mode;
        filter_value = m.filtered.value;
        complete = m.filtered.was_complete;
      })

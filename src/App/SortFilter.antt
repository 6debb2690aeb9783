-- ===== src/App/SortFilter.antt =====
-- app/src/models/sortfiltermodel.h and sortfiltermodel.cpp. Of QSortFilterProxyModel, the base
-- class, there is what the program sets in it; how it sorts and filters by that is Qt's. The names
-- of roles are Latin-1 texts.
pub mod Kept
pub mod Applied
use harbour_sailfishconnect.Base.{
  ℕ, String, Bool, true, false, not, ◌&&◌, ◌||◌, Option, none, some, List, [], ◌∷◌, index_of,
  get_or, if◌then◌else◌, ◌==◌, string_eq, eqb, ltb,
}

-- QVariant.
pub record Variants (V : Type 0) : Type 0 where
  pub same : V → V → Bool
  pub is_valid : V → Bool
  pub to_text : V → String

-- The members that filterAcceptsRow() reads.
pub record Filtering (V : Type 0) : Type 0 where
  pub mode : ℕ
  pub value : V
  pub was_complete : Bool

-- `roles` are the numbers and names of the source model's roles, `sorted` the order of the last call
-- of sort(0, order), and `filtered` what filterAcceptsRow() read of the model when the base class
-- last called it for all rows. The base class calls it by itself when its own role or expression
-- changes, but it does not know of the model's members.
pub record SortFilterModel (V : Type 0) : Type 0 where
  pub filter_mode_index : ℕ
  pub filter_value : V
  pub filter_role : String
  pub sort_role : String
  pub sort_ascending : Bool
  pub complete : Bool
  pub roles : List (ℕ × String)
  pub base_sort_role : ℕ
  pub base_filter_role : ℕ
  pub filter_reg_exp : String
  pub sorted : Option Bool
  pub filtered : Filtering V

-- roles.key(name, 0)
unfoldable pub role_key : String → List (ℕ × String) → ℕ
role_key name [] = 0
role_key name ((role, n) ∷ roles) = if n == name then role else role_key name roles

abbrev pub filter_modes : List String
filter_modes = "none" ∷ "value" ∷ "regex" ∷ []

module _ {V : Type 0} (qt : Variants V) where
  unfoldable pub new_model : V → SortFilterModel V
  new_model invalid = record {
    filter_mode_index = 0;
    filter_value = invalid;
    filter_role = "";
    sort_role = "";
    sort_ascending = true;
    complete = true;
    roles = [];
    base_sort_role = 0;
    base_filter_role = 0;
    filter_reg_exp = "";
    sorted = none;
    filtered = record { mode = 0; value = invalid; was_complete = true };
  }

  -- `base` is what the base class says, and `value` the source model's data for the filter role.
  unfoldable pub filter_accepts_row : Bool → V → SortFilterModel V → Bool
  filter_accepts_row base value m =
      if eqb m.filter_mode_index 0
      then true
      else if ltb 1 m.filter_mode_index
      then base
      else if not m.complete || not (qt.is_valid m.filter_value)
      then true
      else qt.same m.filter_value value

  unfoldable pub sort_all : SortFilterModel V → SortFilterModel V
  sort_all m = record m { sorted = some m.sort_ascending }

  unfoldable pub set_sort_ascending : Bool → SortFilterModel V → SortFilterModel V
  unfolding sort_all
  set_sort_ascending sort_ascending m =
      let n = record m { sort_ascending = sort_ascending } in
      if (m.sort_ascending && sort_ascending) || (not m.sort_ascending && not sort_ascending)
      then m
      else if n.complete && not (n.sort_role == "")
      then sort_all n
      else n

  -- The base's invalidateFilter(): it asks filterAcceptsRow() again for all rows.
  unfoldable pub filter_rows : SortFilterModel V → SortFilterModel V
  filter_rows m = record m {
    filtered = record {
      mode = m.filter_mode_index;
      value = m.filter_value;
      was_complete = m.complete;
    };
  }

  unfoldable pub invalidate_filter : SortFilterModel V → SortFilterModel V
  unfolding filter_rows
  invalidate_filter m =
      let n =
        if eqb m.filter_mode_index 2
        then record m { filter_reg_exp = qt.to_text m.filter_value }
        else m in
      if not m.complete then m else filter_rows n

  unfoldable pub change_filter_mode : Option ℕ → SortFilterModel V → SortFilterModel V
  unfolding invalidate_filter
  change_filter_mode none m = m
  change_filter_mode (some index) m =
      if eqb index m.filter_mode_index
      then m
      else invalidate_filter (record m { filter_mode_index = index })

  unfoldable pub set_filter_mode : String → SortFilterModel V → SortFilterModel V
  unfolding change_filter_mode
  set_filter_mode filter_mode m = change_filter_mode (index_of filter_modes filter_mode) m

  unfoldable pub set_sort_role : String → SortFilterModel V → SortFilterModel V
  unfolding role_key
  set_sort_role name m =
      let n = record m { sort_role = name } in
      if name == m.sort_role
      then m
      else if n.complete
      then record n { base_sort_role = role_key n.sort_role n.roles }
      else n

  unfoldable pub set_filter_role : String → SortFilterModel V → SortFilterModel V
  unfolding role_key
  set_filter_role name m =
      let n = record m { filter_role = name } in
      if name == m.filter_role
      then m
      else if n.complete
      then record n { base_filter_role = role_key n.filter_role n.roles }
      else n

  unfoldable pub set_filter_value : V → SortFilterModel V → SortFilterModel V
  unfolding invalidate_filter
  set_filter_value value m =
      let mode = if eqb m.filter_mode_index 0 then 1 else m.filter_mode_index in
      if qt.same value m.filter_value
      then m
      else invalidate_filter (record m { filter_value = value; filter_mode_index = mode })

  unfoldable pub class_begin : SortFilterModel V → SortFilterModel V
  class_begin m = record m { complete = false }

  unfoldable pub on_role_names_changed : SortFilterModel V → SortFilterModel V
  unfolding role_key
  on_role_names_changed m = if not m.complete then m else record m {
    base_sort_role = role_key m.sort_role m.roles;
    base_filter_role = role_key m.filter_role m.roles;
  }

  unfoldable pub component_complete : SortFilterModel V → SortFilterModel V
  unfolding on_role_names_changed invalidate_filter sort_all
  component_complete m =
      let n = invalidate_filter (on_role_names_changed (record m { complete = true })) in
      if not (n.sort_role == "") then sort_all n else n

  -- Another source model, or a reset one, with these roles. The base class filters its rows.
  unfoldable pub source_changed : List (ℕ × String) → SortFilterModel V → SortFilterModel V
  unfolding on_role_names_changed filter_rows
  source_changed roles m = on_role_names_changed (filter_rows (record m { roles = roles }))

-- What QML does with a model, in any order.
pub data Change (V : Type 0) : Type 0 where
  ascending : Bool → Change V
  mode : String → Change V
  by_role : String → Change V
  filter_by_role : String → Change V
  value : V → Change V
  begin completed : Change V
  source : List (ℕ × String) → Change V

unfoldable pub apply : {V : Type 0} → Variants V → Change V → SortFilterModel V → SortFilterModel V
unfolding set_sort_ascending set_filter_mode set_sort_role set_filter_role set_filter_value
    class_begin component_complete source_changed
apply qt (ascending b) m = set_sort_ascending qt b m
apply qt (mode s) m = set_filter_mode qt s m
apply qt (by_role s) m = set_sort_role qt s m
apply qt (filter_by_role s) m = set_filter_role qt s m
apply qt (value v) m = set_filter_value qt v m
apply qt begin m = class_begin qt m
apply qt completed m = component_complete qt m
apply qt (source roles) m = source_changed qt roles m

-- ===== src/App/Models.antt =====
-- List models under app/src/models/: StringListModel of stringlistmodel.cpp, and the list of names
-- in MprisPlayersModel of mprisplayersmodel.cpp. Each operation returns the signals of
-- QAbstractItemModel that it emits, a pair of a begin and an end being one.
pub mod Views
pub mod Players
pub mod Mirror
use harbour_sailfishconnect.Base.{
  ℕ, suc, String, Bool, true, false, not, ◌&&◌, Option, none, some, List, [], ◌∷◌, ◌++◌, length,
  get_elem?, set, remove_at, insert_at, index_of, if◌then◌else◌, ◌==◌, string_eq, ltb, ℤ, pos_part,
  is_nonneg,
}

pub data ModelSignal : Type 0 where
  row_inserted row_removed data_changed : ℕ → ModelSignal
  model_reset : ModelSignal

pub data Role : Type 0 where
  display edit other : Role

abbrev pub is_text_role : Role → Bool
is_text_role display = true
is_text_role edit = true
is_text_role other = false

unfoldable pub in_range : ℤ → List String → Bool
in_range row l = is_nonneg row && ltb (pos_part row) (length l)

-- The result of an operation that answers with a Bool: signals, answer, list.
abbrev pub Answering : Type 0
Answering = List ModelSignal × (Bool × List String)

-- data(); `none` is an invalid QVariant.
unfoldable pub data_of : ℤ → Role → List String → Option String
unfolding in_range
data_of row role l =
    if not (in_range row l)
    then none
    else if is_text_role role
    then get_elem? l (pos_part row)
    else none

-- What setData() does at a row that holds `old`.
unfoldable pub replace_row : ℕ → Option String → String → List String → Answering
replace_row row none value l = ([], (true, l))
replace_row row (some old) value l =
    if value == old then ([], (true, l)) else (data_changed row ∷ [], (true, set l row value))

unfoldable pub set_data : ℤ → String → Role → List String → Answering
unfolding in_range replace_row
set_data row value role l =
    if not (in_range row l)
    then ([], (false, l))
    else if is_text_role role
    then replace_row (pos_part row) (get_elem? l (pos_part row)) value l
    else ([], (false, l))

unfoldable pub append : String → List String → List ModelSignal × List String
append value l = (row_inserted (length l) ∷ [], l ++ value ∷ [])

unfoldable pub remove_row : ℤ → List String → Answering
unfolding in_range
remove_row row l =
    if in_range row l
    then (row_removed (pos_part row) ∷ [], (true, remove_at l (pos_part row)))
    else ([], (false, l))

unfoldable pub remove_one : String → List String → Answering
remove_one value l = elim (index_of l value) [
  | none ↦ ([], (false, l))
  | some i ↦ (row_removed i ∷ [], (true, remove_at l i))
]

unfoldable pub same_list : List String → List String → Bool
same_list [] [] = true
same_list [] (y ∷ ys) = false
same_list (x ∷ xs) [] = false
same_list (x ∷ xs) (y ∷ ys) = x == y && same_list xs ys

unfoldable pub set_string_list : List String → List String → List ModelSignal × List String
unfolding same_list
set_string_list value l = if same_list l value then ([], l) else (model_reset ∷ [], value)

unfoldable pub is_at : Option String → String → Bool
is_at none name = false
is_at (some x) name = x == name

unfoldable pub insert_player : ℕ → String → List String → List ModelSignal × List String
insert_player i name l = (row_inserted i ∷ [], insert_at i name l)

-- The order of names that std::lower_bound and QStringList::sort use.
module _ (less : String → String → Bool) where
  -- The first place whose name is not less.
  unfoldable pub lower_bound : String → List String → ℕ
  lower_bound name [] = 0
  lower_bound name (x ∷ xs) = let rest = lower_bound name xs in if less x name then suc rest else 0

  unfoldable pub player_added : String → List String → List ModelSignal × List String
  unfolding lower_bound insert_player is_at
  player_added name l =
      let i = lower_bound name l in
      if is_at (get_elem? l i) name then ([], l) else insert_player i name l

unfoldable pub player_removed : String → List String → List ModelSignal × List String
player_removed name l = elim (index_of l name) [
  | none ↦ ([], l)
  | some i ↦ (row_removed i ∷ [], remove_at l i)
]

unfoldable pub plugin_destroyed : List String → List ModelSignal × List String
plugin_destroyed l = (model_reset ∷ [], [])

-- ===== src/App/Models/Views.antt =====
-- What a view of the models under app/src/models/ sees.
use harbour_sailfishconnect.Base.{
  ℕ, zero, suc, ◌≤◌, String, Option, none, some, List, [], ◌∷◌, ◌++◌, length, get_elem?, set,
  remove_at, insert_at, string_eq, ℤ, pos_part, ◌≡◌, refl, ap, arith,
}
use harbour_sailfishconnect.App.Models.{
  ModelSignal, row_inserted, row_removed, data_changed, model_reset, Role, replace_row, set_data,
  append, remove_row, remove_one, set_string_list,
}

-- A view keeps a copy of the rows. At a signal it reads the rows that the signal names from the
-- model; a row that the model does not have leaves the copy as it is.
abbrev pub insert_read : ℕ → Option String → List String → List String
insert_read i none view = view
insert_read i (some s) view = insert_at i s view

abbrev pub set_read : ℕ → Option String → List String → List String
set_read i none view = view
set_read i (some s) view = set view i s

abbrev pub see : List String → List String → ModelSignal → List String
see model view (row_inserted i) = insert_read i (get_elem? model i) view
see model view (row_removed i) = remove_at view i
see model view (data_changed i) = set_read i (get_elem? model i) view
see model view model_reset = model

abbrev pub see_all : List String → List String → List ModelSignal → List String
see_all model view [] = view
see_all model view (s ∷ signals) = see_all model (see model view s) signals

-- The signals tell all of a change: a view that had the rows before has the rows after.
abbrev pub Follows : List String → List ModelSignal × List String → Type 0
Follows l (signals, after) = see_all after l signals ≡ after

read_inserted :
    (i : ℕ) (s : String) (l : List String) → i ≤ length l → get_elem? (insert_at i s l) i ≡ some s
read_inserted zero s l h = refl
read_inserted (suc i) s [] h = elim h [ ]
read_inserted (suc i) s (x ∷ l) h = read_inserted i s l (omega arith)

append_insert : (s : String) (l : List String) → l ++ s ∷ [] ≡ insert_at (length l) s l
append_insert s [] = refl
append_insert s (x ∷ l) = ap (λ t. x ∷ t) (append_insert s l)

insert-Follows :
    (i : ℕ) (s : String) (l : List String)
    → i ≤ length l
    → Follows l (row_inserted i ∷ [], insert_at i s l)
insert-Follows i s l h = rw (read_inserted i s l h) refl

read_set :
    (i : ℕ) (s old : String) (l : List String)
    → get_elem? l i ≡ some old
    → get_elem? (set l i s) i ≡ some s
read_set i s old [] h = cc
read_set zero s old (x ∷ l) h = refl
read_set (suc i) s old (x ∷ l) h = read_set i s old l h

-- An operation of the string list.
pub data Operation : Type 0 where
  setting : ℤ → String → Role → Operation
  appending : String → Operation
  removing : ℤ → Operation
  removing_one : String → Operation
  replacing : List String → Operation

abbrev pub perform : Operation → List String → List ModelSignal × List String
perform (setting row value role) l =
    let (signals, (answer, m)) = set_data row value role l in (signals, m)
perform (appending value) l = append value l
perform (removing row) l = let (signals, (answer, m)) = remove_row row l in (signals, m)
perform (removing_one value) l = let (signals, (answer, m)) = remove_one value l in (signals, m)
perform (replacing value) l = set_string_list value l

replace-Follows :
    (row : ℕ) (old : Option String) (value : String) (l : List String)
    → get_elem? l row ≡ old
    → Follows l ((replace_row row old value l).0, (replace_row row old value l).1.1)
unfolding replace_row
replace-Follows row none value l h = refl
replace-Follows row (some old) value l h = ground (arith, read_set row value old l h)

-- Every operation of the string list signals all that it changes.
pub operations-Follow : (o : Operation) (l : List String) → Follows l (perform o l)
unfolding set_data append remove_row remove_one set_string_list
operations-Follow (setting row value role) l =
    ground (arith, replace-Follows (pos_part row) (get_elem? l (pos_part row)) value l refl)
operations-Follow (appending value) l =
    rw (append_insert value l) (insert-Follows (length l) value l (omega arith))
operations-Follow (removing row) l = ground arith
operations-Follow (removing_one value) l = ground arith
operations-Follow (replacing value) l = ground arith

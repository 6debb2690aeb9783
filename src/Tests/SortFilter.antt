-- ===== src/Tests/SortFilter.antt =====
-- A model that shows the rows of one device type.
use harbour_sailfishconnect.Base.{
  ℕ, String, not, List, [], ◌∷◌, if◌then◌else◌, ◌==◌, string_eq, eqb,
}
use harbour_sailfishconnect.App.SortFilter.{
  Variants, Change, by_role, filter_by_role, value, begin, completed, source,
}

abbrev texts : Variants String
texts = record { same = λ a b. a == b; is_valid = λ a. not (a == ""); to_text = λ a. a }

abbrev changes : List (Change String)
changes =
    begin
    ∷ value "phone"
    ∷ filter_by_role "type"
    ∷ by_role "name"
    ∷ source ((257, "name") ∷ (258, "type") ∷ [])
    ∷ completed
    ∷ []

abbrev row : ℕ → String
row role = if eqb role 258 then "phone" else "Jolla"

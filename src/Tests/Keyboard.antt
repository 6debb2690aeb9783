-- ===== src/Tests/Keyboard.antt =====
-- A layout of three rows, and one whose only key is not closed.
use harbour_sailfishconnect.Base.{
  String, Bool, true, none, some, List, [], ◌∷◌, if◌then◌else◌, ◌==◌, ◌||◌, ◌&&◌, string_eq, pos,
  ◌≡◌, refl,
}
use harbour_sailfishconnect.App.Keyboard.{Platform, KeyboardLayoutProvider, set_layout}
use harbour_sailfishconnect.App.Keyboard.Reading.{after_other, never_closed, set_layout-Unclosed}

-- The few lines that the files have, and what they contain.
abbrev has : String → String → Bool
has line part =
    if line == "  }"
    then part == "  }" || part == "}"
    else if line == "Key"
    then part == "Key"
    else line == "}" && part == "}"

abbrev good : List String
good = "  }" ∷ "  }" ∷ "  }" ∷ "}" ∷ []

abbrev bad : List String
bad = "import" ∷ "Key" ∷ "caption" ∷ []

abbrev platform : Platform
platform = record {
  contains = has;
  ends_with = λ s p. true;
  replace = λ s a b. s;
  captured = λ p s. none;
  before_dot = λ s. s;
  number = λ n. "7";
  read_file = λ p.
      if p == "/usr/share/maliit/plugins/com/jolla/layouts/en.qml" then some good else some bad;
  entries = [];
  conf_names = λ c. [];
}

abbrev provider : KeyboardLayoutProvider
provider = record {
  layout = "fi";
  layouts = [];
  row1 = [];
  row2 = [];
  row3 = [];
  row4 = [];
  row5 = [];
  repeat_interval = pos 200;
  feedback = true;
  settings = record { layout = none; repeat_interval = none; feedback = none };
}

set_layout-Unclosed_example : set_layout platform 1000 "de" provider ≡ none
set_layout-Unclosed_example =
    set_layout-Unclosed platform "de" bad provider refl refl
      (after_other refl refl refl refl (never_closed refl (refl, refl, refl) refl (refl, tt))) 1000

-- ===== src/App/Keyboard.antt =====
-- app/src/helper/keyboardlayoutprovider.cpp: the layouts of Maliit, read from their QML files line
-- by line. A file is the list of its lines, which end with a newline; QFile::readLine() gives the
-- empty text when there are none left. What runs out of fuel, and what a failing assertion of
-- QJsonArray stops, has no result.
pub mod Reading
use harbour_sailfishconnect.Base.{
  ℕ, zero, suc, ◌+◌, String, ◌<>◌, Bool, true, false, not, ◌&&◌, ◌||◌, Option, none, some, List, [],
  ◌∷◌, ◌++◌, map, get_elem?, get_or, if◌then◌else◌, ◌==◌, ◌>>=◌, string_eq, ℤ, pos,
}
use harbour_sailfishconnect.Base.Dict.{Dict, lookup, insert}

-- What Qt does: QString, QRegularExpression's first group, the directory of layouts.
pub record Platform : Type 0 where
  pub contains : String → String → Bool
  pub ends_with : String → String → Bool
  pub replace : String → String → String → String
  pub captured : String → String → Option String
  pub before_dot : String → String
  pub number : ℕ → String
  -- The lines of a file that can be opened, and the groups of a settings file with their names.
  pub read_file : String → Option (List String)
  pub entries : List String
  pub conf_names : String → List (String × String)

-- A QJsonObject of texts, and a row of them.
abbrev pub Key : Type 0
Key = Dict String String

abbrev pub Row : Type 0
Row = List Key

pub record Settings : Type 0 where
  pub layout : Option String
  pub repeat_interval : Option ℤ
  pub feedback : Option Bool

pub record KeyboardLayoutProvider : Type 0 where
  pub layout : String
  pub layouts : List Key
  pub row1 : Row
  pub row2 : Row
  pub row3 : Row
  pub row4 : Row
  pub row5 : Row
  pub repeat_interval : ℤ
  pub feedback : Bool
  pub settings : Settings

pub data Signal : Type 0 where
  layout_changed settings_changed : Signal

-- layoutFile.readLine(), with the lines that are left.
unfoldable pub read_line : List String → String × List String
read_line [] = ("", [])
read_line (line ∷ rest) = (line, rest)

unfoldable pub key_of : String → Key
key_of name = ("caption", name) ∷ []

unfoldable pub set_captured : String → Option String → Key → Key
set_captured name none key = key
set_captured name (some text) key = insert name text key

unfoldable pub row5_key : String → Key
unfolding key_of
row5_key name =
    let key = key_of name in
    if name == "."
    then insert "symView" "left" key
    else if name == "alt"
    then insert "symView" "down" key
    else if name == "enter"
    then insert "symView" "right" key
    else if name == "?123"
    then insert "symView" "ABC" key
    else key

abbrev pub new_row5 : Row
new_row5 = map row5_key ("?123" ∷ "ctrl" ∷ "," ∷ " " ∷ "." ∷ "alt" ∷ "enter" ∷ [])

module _ (pf : Platform) where
  -- The loop that reads the lines of a key up to its brace: the text of the key, its last line and
  -- the lines that are left. At the end of the file it does not end.
  unfoldable pub read_key :
      ℕ → String → String → List String → Option (String × String × List String)
  unfolding read_line
  read_key zero line key_sequence rest = none
  read_key (suc fuel) line key_sequence rest =
      let next = read_line rest in
      let more = read_key fuel next.0 (key_sequence <> next.0) next.1 in
      if pf.contains line "}" then some (key_sequence, line, rest) else more

  -- The text of a key in one line, without its backslashes.
  unfoldable pub unescape : String → String
  unescape key_sequence =
      pf.replace (pf.replace (pf.replace key_sequence "\n" " ") "\\\"" "\"") "\\\\" "\\"

  unfoldable pub keys_of : String → Row
  unfolding key_of set_captured
  keys_of key_sequence =
      if pf.contains key_sequence "ShiftKey"
      then key_of "shift" ∷ []
      else if pf.contains key_sequence "BackspaceKey"
      then insert "symView" "up" (key_of "") ∷ key_of "backspace" ∷ []
      else set_captured "symView2" (pf.captured "symView2: \"([\\S]+)\"" key_sequence) (
          set_captured "symView" (pf.captured "symView: \"([\\S]+)\"" key_sequence) (
            set_captured "captionShifted" (pf.captured "captionShifted: \"([\\S])\"" key_sequence)
              (key_of (get_or (pf.captured "caption: \"([\\S])\"" key_sequence) ""))))
        ∷ []

  -- The loop over the lines: the rows of the file.
  unfoldable pub read_rows : ℕ → String → List String → List Row → Row → Option (List Row)
  unfolding read_line read_key unescape keys_of
  read_rows zero line rest keys row = none
  read_rows (suc fuel) line rest keys row =
      let next = read_line rest in
      let after_row = read_rows fuel next.0 next.1 (keys ++ row ∷ []) row in
      let at_row = read_rows fuel next.0 next.1 keys [] in
      let after_other = read_rows fuel next.0 next.1 keys row in
      let after_key : String × String × List String → Option (List Row) = λ (s, last, left).
        read_rows fuel (read_line left).0 (read_line left).1 keys (row ++ keys_of (unescape s)) in
      if line == ""
      then some keys
      else if pf.contains line "  }"
      then after_row
      else if pf.contains line "KeyboardRow {"
      then at_row
      else if pf.contains line "Key"
      then read_key fuel line line rest >>= after_key
      else after_other

  unfoldable pub set_layout :
      ℕ → String → KeyboardLayoutProvider → Option (List Signal × KeyboardLayoutProvider)
  unfolding read_line read_rows row5_key
  set_layout fuel layout k =
      elim (pf.read_file ("/usr/share/maliit/plugins/com/jolla/layouts/" <> layout <> ".qml")) [
        | none ↦ some ([], k)
        | some lines ↦ do
          keys ← read_rows fuel (read_line lines).0 (read_line lines).1 [] []
          row2 ← get_elem? keys 0
          row3 ← get_elem? keys 1
          row4 ← get_elem? keys 2
          some (
            layout_changed ∷ [],
            record k {
              settings = record k.settings { layout = some layout };
              row2 = row2;
              row3 = row3;
              row4 = row4;
              row5 = new_row5;
              layout = layout;
            },
          )
      ]

  unfoldable pub set_repeat_interval :
      ℤ → KeyboardLayoutProvider → List Signal × KeyboardLayoutProvider
  set_repeat_interval interval k = (
    settings_changed ∷ [],
    record k {
      repeat_interval = interval;
      settings = record k.settings { repeat_interval = some interval };
    },
  )

  unfoldable pub set_feedback : Bool → KeyboardLayoutProvider → List Signal × KeyboardLayoutProvider
  set_feedback feedback k = (
    settings_changed ∷ [],
    record k { feedback = feedback; settings = record k.settings { feedback = some feedback } },
  )

  -- A key of the first row: F1 and F7, and so on.
  unfoldable pub function_key : String × ℕ → Key
  unfolding key_of
  function_key (name, n) = insert "captionShifted" ("F" <> pf.number (n + 6)) (key_of name)

  unfoldable pub new_row1 : Row
  unfolding key_of function_key
  new_row1 =
      key_of "esc"
      ∷ map function_key
          (("F1", 1) ∷ ("F2", 2) ∷ ("F3", 3) ∷ ("F4", 4) ∷ ("F5", 5) ∷ ("F6", 6) ∷ [])

  unfoldable pub insert_all : List (String × String) → Dict String String → Dict String String
  insert_all [] names = names
  insert_all ((group, name) ∷ more) names = insert_all more (insert group name names)

  unfoldable pub long_names : List String → Dict String String → Dict String String
  unfolding insert_all
  long_names [] names = names
  long_names (conf ∷ entries) names =
      long_names entries
        (if pf.ends_with conf ".conf" then insert_all (pf.conf_names conf) names else names)

  unfoldable pub is_listed : String → Bool
  is_listed layout =
      pf.ends_with layout ".qml"
      && not (pf.contains layout "_")
      && not (
          pf.contains layout "hi"
          || pf.contains layout "kn"
          || pf.contains layout "mr"
          || pf.contains layout "te"
          || pf.contains layout "emoji")

  unfoldable pub languages : List String → Dict String String → List Key
  unfolding is_listed
  languages [] names = []
  languages (layout ∷ entries) names =
      let rest = languages entries names in
      if is_listed layout
      then (("short", pf.before_dot layout) ∷ ("long", get_or (lookup layout names) "") ∷ []) ∷ rest
      else rest

  unfoldable pub load_names : KeyboardLayoutProvider → KeyboardLayoutProvider
  unfolding long_names languages
  load_names k = record k { layouts = k.layouts ++ languages pf.entries (long_names pf.entries []) }

  -- The constructor.
  unfoldable pub new_provider : ℕ → Settings → Option KeyboardLayoutProvider
  unfolding new_row1 set_layout load_names
  new_provider fuel settings = do
    r ← set_layout fuel (get_or settings.layout "en") (record {
      layout = get_or settings.layout "en";
      layouts = [];
      row1 = new_row1;
      row2 = [];
      row3 = [];
      row4 = [];
      row5 = [];
      repeat_interval = get_or settings.repeat_interval (pos 200);
      feedback = get_or settings.feedback true;
      settings = settings;
    })
    some (load_names r.1)

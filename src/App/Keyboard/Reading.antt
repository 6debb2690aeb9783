-- ===== src/App/Keyboard/Reading.antt =====
-- When the loops of KeyboardLayoutProvider::setLayout() in
-- app/src/helper/keyboardlayoutprovider.cpp end.
use harbour_sailfishconnect.Base.{
  ℕ, zero, suc, String, ◌<>◌, true, false, none, some, List, [], ◌∷◌, ◌==◌, ◌>>=◌, string_eq, ◌≡◌,
  refl, ◌⊎◌, inl, inr,
}
use harbour_sailfishconnect.App.Keyboard.{
  Platform, Row, KeyboardLayoutProvider, read_line, read_key, read_rows, set_layout,
}

module _ (pf : Platform) where
  -- The last line, which may be the given one, has a closing brace.
  abbrev pub EndsAfter : String → List String → Type 0
  EndsAfter line [] = pf.contains line "}" ≡ true
  EndsAfter line (next ∷ rest) = EndsAfter next rest

  abbrev pub EndsWithBrace : List String → Type 0
  EndsWithBrace [] = Unit
  EndsWithBrace (line ∷ rest) = EndsAfter line rest

  abbrev path : String → String
  path layout = "/usr/share/maliit/plugins/com/jolla/layouts/" <> layout <> ".qml"

  -- No line has a closing brace.
  abbrev pub Braceless : List String → Type 0
  Braceless [] = Unit
  Braceless (line ∷ rest) = (pf.contains line "}" ≡ false) × Braceless rest

  -- A line with which a key starts.
  abbrev pub StartsKey : String → Type 0
  StartsKey line =
      (pf.contains line "  }" ≡ false)
      × (pf.contains line "KeyboardRow {" ≡ false)
      × (pf.contains line "Key" ≡ true)

  -- What is left after the key that starts with the line, up to its first line with a brace.
  pub data Closes : String → List String → List String → Type 0 where
    closed :
        {line : String} {rest : List String} → pf.contains line "}" ≡ true → Closes line rest rest
    open_yet :
        {line next : String} {rest left : List String}
        → pf.contains line "}" ≡ false
        → Closes next rest left
        → Closes line (next ∷ rest) left

  -- After any lines, among them rows and keys that are closed, a key starts that is not closed.
  -- No line before it is empty.
  pub data Unclosed : List String → Type 0 where
    never_closed :
        {line : String} {rest : List String}
        → (line == "") ≡ false
        → StartsKey line
        → pf.contains line "}" ≡ false
        → Braceless rest
        → Unclosed (line ∷ rest)
    after_row_end :
        {line : String} {rest : List String}
        → (line == "") ≡ false
        → pf.contains line "  }" ≡ true
        → Unclosed rest
        → Unclosed (line ∷ rest)
    after_row_start :
        {line : String} {rest : List String}
        → (line == "") ≡ false
        → pf.contains line "  }" ≡ false
        → pf.contains line "KeyboardRow {" ≡ true
        → Unclosed rest
        → Unclosed (line ∷ rest)
    after_other :
        {line : String} {rest : List String}
        → (line == "") ≡ false
        → pf.contains line "  }" ≡ false
        → pf.contains line "KeyboardRow {" ≡ false
        → pf.contains line "Key" ≡ false
        → Unclosed rest
        → Unclosed (line ∷ rest)
    after_key :
        {line : String} {rest left : List String}
        → (line == "") ≡ false
        → StartsKey line
        → Closes line rest left
        → Unclosed left
        → Unclosed (line ∷ rest)

  -- A key that is closed is read up to there, or not to its end.
  read_key-Closes :
      (fuel : ℕ) (key_sequence : String) {line : String} {rest left : List String}
      → Closes line rest left
      → (read_key pf fuel line key_sequence rest ≡ none)
        ⊎ ((s last : String) × (read_key pf fuel line key_sequence rest ≡ some (s, last, left)))
  unfolding read_key read_line
  read_key-Closes zero s c = inl refl
  read_key-Closes (suc fuel) s (closed {line} t) = inr (s, line, rw t refl)
  read_key-Closes (suc fuel) s (open_yet {line} {next} f c) =
      elim (read_key-Closes fuel (s <> next) c) [
        | inl e ↦ inl (rw f e)
        | inr (more, last, e) ↦ inr (more, last, rw f e)
      ]

  read_key-hangs :
      (fuel : ℕ) (line key_sequence : String) (rest : List String)
      → pf.contains "" "}" ≡ false
      → pf.contains line "}" ≡ false
      → Braceless rest
      → read_key pf fuel line key_sequence rest ≡ none
  unfolding read_key read_line
  read_key-hangs zero line s rest n h b = refl
  read_key-hangs (suc fuel) line s [] n h b = rw h (read_key-hangs fuel "" (s <> "") [] n n tt)
  read_key-hangs (suc fuel) line s (next ∷ rest) n h (f, b) =
      rw h (read_key-hangs fuel next (s <> next) rest n f b)

  read_rows-hangs :
      (fuel : ℕ) (keys : List Row) (row : Row) {rest : List String}
      → pf.contains "" "}" ≡ false
      → Unclosed rest
      → read_rows pf fuel (read_line rest).0 (read_line rest).1 keys row ≡ none
  unfolding read_rows read_line
  read_rows-hangs zero keys row n u = refl
  read_rows-hangs (suc fuel) keys row n
        (never_closed {line} {rest} given (a, b, c) never braceless) =
      rw (given, a, b, c, read_key-hangs fuel line line rest n never braceless) refl
  read_rows-hangs (suc fuel) keys row n (after_row_end given a u) =
      rw (given, a) (read_rows-hangs fuel _ _ n u)
  read_rows-hangs (suc fuel) keys row n (after_row_start given a b u) =
      rw (given, a, b) (read_rows-hangs fuel _ _ n u)
  read_rows-hangs (suc fuel) keys row n (after_other given a b c u) =
      rw (given, a, b, c) (read_rows-hangs fuel _ _ n u)
  read_rows-hangs (suc fuel) keys row n (after_key {line} given (a, b, c) closes u) =
      elim (read_key-Closes fuel line closes) [
        | inl e ↦ rw (given, a, b, c, e) refl
        | inr (s, last, e) ↦ rw (given, a, b, c, e) (read_rows-hangs fuel _ _ n u)
      ]

  -- A key that is never closed hangs the program: when a layout's file can be opened, and after
  -- any lines of rows, keys and other text, none of them empty, a key starts with no closing brace
  -- up to the end of the file, there is no number of rounds after which the layout would be set.
  -- The empty text that is read at the end of a file has no brace.
  pub set_layout-Unclosed :
      (layout : String) (lines : List String) (k : KeyboardLayoutProvider)
      → pf.contains "" "}" ≡ false
      → pf.read_file (path layout) ≡ some lines
      → Unclosed lines
      → (fuel : ℕ) → set_layout pf fuel layout k ≡ none
  unfolding set_layout
  set_layout-Unclosed layout lines k n opened u fuel =
      rw (set_layout, opened) (rw (read_rows-hangs fuel [] [] n u) refl)

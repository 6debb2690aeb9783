-- ===== src/Plugins/Notifications/Messages.antt =====
-- How plugins/sf_sendnotifications/notificationslistener.cpp reads a message of the D-Bus. A
-- DBusMessageIter is the list of the values that are left. A failing Q_ASSERT is `none`.
use harbour_sailfishconnect.Base.{
  ℕ, String, Bool, true, false, Option, none, some, List, [], ◌∷◌, if◌then◌else◌, ◌>>=◌, string_eq,
  ℤ, pos,
}
use harbour_sailfishconnect.Base.Dict.{Dict, insert}
use harbour_sailfishconnect.Plugins.Notifications.{Notify}

-- The basic values of the D-Bus. A double is given by its bits.
pub data Basic : Type 0 where
  boolean : Bool → Basic
  int16 int32 int64 : ℤ → Basic
  uint16 uint32 uint64 byte : ℕ → Basic
  double : ℕ → Basic
  string object_path signature : String → Basic
  unix_fd : ℕ → Basic

-- An array, a structure, an entry of a dictionary and a variant hold values.
mutual
  pub data Value : Type 0 where
    basic : Basic → Value
    array structure entry variant : Values → Value

  pub data Values : Type 0 where
    nil : Values
    cons : Value → Values → Values

-- The constructors of QVariant that the program calls.
pub record Variants (V : Type 0) : Type 0 where
  pub invalid : V
  pub from_int : ℤ → V
  pub from_uint : ℕ → V
  pub from_long_long : ℤ → V
  pub from_unsigned_long_long : ℕ → V
  pub from_double : ℕ → V
  pub from_text : String → V

abbrev pub Reading {ℓ} : Type ℓ → Type ℓ
Reading A = Option (A × Values)

unfoldable pub next_unsigned : Values → Reading ℕ
next_unsigned (cons (basic (uint32 n)) rest) = some (n, rest)
next_unsigned _ = none

unfoldable pub next_int : Values → Reading ℤ
next_int (cons (basic (int32 n)) rest) = some (n, rest)
next_int _ = none

unfoldable pub next_string : Values → Reading String
next_string (cons (basic (string s)) rest) = some (s, rest)
next_string _ = none

-- The iterator over what the next value holds; over nothing when it holds no values.
unfoldable pub recurse : Values → Values
recurse nil = nil
recurse (cons (basic b) rest) = nil
recurse (cons (array items) rest) = items
recurse (cons (structure items) rest) = items
recurse (cons (entry items) rest) = items
recurse (cons (variant items) rest) = items

unfoldable pub skip : Values → Values
skip nil = nil
skip (cons v rest) = rest

unfoldable pub read_strings : Values → Option (List String)
read_strings nil = some []
read_strings (cons (basic (string s)) rest) = do list ← read_strings rest; some (s ∷ list)
read_strings (cons v rest) = none

unfoldable pub next_string_list : Values → Reading (List String)
unfolding recurse skip read_strings
next_string_list iter = do list ← read_strings (recurse iter); some (list, skip iter)

module _ {V : Type 0} (qt : Variants V) where
  -- A dbus_bool_t is an unsigned number, and smaller numbers are promoted to int.
  unfoldable pub from_basic : Basic → V
  from_basic (boolean b) = qt.from_uint (if b then 1 else 0)
  from_basic (int16 n) = qt.from_int n
  from_basic (int32 n) = qt.from_int n
  from_basic (int64 n) = qt.from_long_long n
  from_basic (uint16 n) = qt.from_int (pos n)
  from_basic (uint32 n) = qt.from_uint n
  from_basic (uint64 n) = qt.from_unsigned_long_long n
  from_basic (byte n) = qt.from_int (pos n)
  from_basic (double d) = qt.from_double d
  from_basic (string s) = qt.from_text s
  from_basic (object_path s) = qt.invalid
  from_basic (signature s) = qt.invalid
  from_basic (unix_fd n) = qt.invalid

  -- What nextVariant() makes of the value in a variant.
  unfoldable pub from_content : Values → V
  unfolding from_basic
  from_content (cons (basic b) rest) = from_basic b
  from_content _ = qt.invalid

  -- A value that is no variant is not passed over.
  unfoldable pub next_variant : Values → V × Values
  unfolding from_content
  next_variant (cons (variant items) rest) = (from_content items, rest)
  next_variant iter = (qt.invalid, iter)

  unfoldable pub read_entries : Values → Dict String V → Option (Dict String V)
  unfolding next_string next_variant recurse
  read_entries nil map = some map
  read_entries (cons v rest) map = do
    (key, iter) ← next_string (recurse (cons v rest))
    read_entries rest (insert key (next_variant iter).0 map)

  unfoldable pub next_variant_map : Values → Reading (Dict String V)
  unfolding recurse skip read_entries
  next_variant_map iter = do map ← read_entries (recurse iter) []; some (map, skip iter)

  -- handleNotifyCall() of a call of Notify: `none` is a failing assertion, and `some none` a call
  -- of another signature than "susssasa{sv}i".
  unfoldable pub handle_notify_call : Bool → Values → Option (Option (Notify V))
  unfolding next_string next_unsigned next_string_list next_variant_map next_int
  handle_notify_call false iter = some none
  handle_notify_call true iter = do
    (app_name, iter1) ← next_string iter
    (replaces_id, iter2) ← next_unsigned iter1
    (app_icon, iter3) ← next_string iter2
    (summary, iter4) ← next_string iter3
    (body, iter5) ← next_string iter4
    (actions, iter6) ← next_string_list iter5
    (hints, iter7) ← next_variant_map iter6
    (timeout, iter8) ← next_int iter7
    some (
        some (record {
          app_name = app_name;
          replaces_id = replaces_id;
          app_icon = app_icon;
          summary = summary;
          body = body;
          actions = actions;
          hints = hints;
          timeout = timeout;
        }))

-- ===== src/Plugins/Notifications/Decoded.antt =====
-- What comes of a call of Notify on the D-Bus, from the message to the packet, in
-- plugins/sf_sendnotifications/notificationslistener.cpp.
use harbour_sailfishconnect.Base.{ℕ, String, true, some, List, [], ◌∷◌, string_eq, ℤ, ◌≡◌, refl}
use harbour_sailfishconnect.Base.Dict.{Dict, insert}
use harbour_sailfishconnect.Plugins.Notifications.{Notify}
use harbour_sailfishconnect.Plugins.Notifications.Messages.{
  uint32, int32, string, Value, Values, basic, array, entry, variant, nil, cons, Variants,
  from_content, next_string, next_unsigned, next_int, recurse, skip, read_strings, next_string_list,
  next_variant, read_entries, next_variant_map, handle_notify_call,
}

-- A call of Notify with the arguments that the specification gives it.
pub record Call : Type 0 where
  pub app_name : String
  pub replaces_id : ℕ
  pub app_icon : String
  pub summary : String
  pub body : String
  pub actions : List String
  pub hints : List (String × Value)
  pub timeout : ℤ

abbrev pub texts : List String → Values
texts [] = nil
texts (s ∷ ss) = cons (basic (string s)) (texts ss)

abbrev pub entries : List (String × Value) → Values
entries [] = nil
entries ((key, v) ∷ hints) =
    cons (entry (cons (basic (string key)) (cons (variant (cons v nil)) nil))) (entries hints)

-- The arguments of a message of the signature susssasa{sv}i.
abbrev pub message : Call → Values
message c = cons (basic (string c.app_name)) (
    cons (basic (uint32 c.replaces_id)) (
      cons (basic (string c.app_icon)) (
        cons (basic (string c.summary)) (
          cons (basic (string c.body)) (
            cons (array (texts c.actions))
              (cons (array (entries c.hints)) (cons (basic (int32 c.timeout)) nil)))))))

module _ {V : Type 0} (qv : Variants V) where
  abbrev pub hints_of : List (String × Value) → Dict String V → Dict String V
  hints_of [] map = map
  hints_of ((key, v) ∷ hints) map = hints_of hints (insert key (from_content qv (cons v nil)) map)

  abbrev pub notify_of : Call → Notify V
  notify_of c = record {
    app_name = c.app_name;
    replaces_id = c.replaces_id;
    app_icon = c.app_icon;
    summary = c.summary;
    body = c.body;
    actions = c.actions;
    hints = hints_of c.hints [];
    timeout = c.timeout;
  }

  read_strings-texts : (ss : List String) → read_strings (texts ss) ≡ some ss
  unfolding read_strings
  read_strings-texts [] = refl
  read_strings-texts (s ∷ ss) = rw (read_strings-texts ss) refl

  read_entries-entries :
      (hints : List (String × Value)) (map : Dict String V)
      → read_entries qv (entries hints) map ≡ some (hints_of hints map)
  unfolding read_entries recurse next_string next_variant
  read_entries-entries [] map = refl
  read_entries-entries ((key, v) ∷ hints) map =
      read_entries-entries hints (insert key (from_content qv (cons v nil)) map)

  pub decodes : (c : Call) → handle_notify_call qv true (message c) ≡ some (some (notify_of c))
  unfolding handle_notify_call next_string next_unsigned next_string_list next_variant_map next_int
      recurse skip
  decodes c = rw (read_strings-texts c.actions, read_entries-entries c.hints []) refl

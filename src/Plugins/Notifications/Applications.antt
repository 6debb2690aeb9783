-- ===== src/Plugins/Notifications/Applications.antt =====
-- The list of applications in plugins/sf_sendnotifications/notificationslistener.cpp.
use harbour_sailfishconnect.Base.{
  Bool, ap, String, true, false, ◌≡◌, refl, sym, ◌∙◌, subst, none, some, List, [], ◌∷◌, ◌++◌,
  append_assoc, append-nil, ◌==◌, string_eq, arith,
}
use harbour_sailfishconnect.Base.Dict.{Dict, lookup, insert, values, lookup-insert_self}
use harbour_sailfishconnect.Plugins.Notifications.{
  Bytes, Streams, Platform, Notify, NotifyingApplication, NotificationsListener,
}
use harbour_sailfishconnect.Plugins.Notifications.Listener.{
  write_application, read_application, write_list, read_list, load_list, load_applications,
  add_application, new_application, find_application, hint_text, on_notify,
}

-- Each application once, and under its name.
abbrev pub Named : Dict String NotifyingApplication → Type 0
Named [] = Unit
Named ((k, a) ∷ d) = (a.name ≡ k) × ((lookup k d ≡ none) × Named d)

lookup_present :
    (k : String) (a : NotifyingApplication) (d e : Dict String NotifyingApplication)
    → lookup k (d ++ (k, a) ∷ e) ≡ none
    → true ≡ false
unfolding lookup
lookup_present k a [] e h = ground (arith, string_eq.beq_iff k k)
lookup_present k a ((j, b) ∷ d) e h = ground (arith, lookup_present k a d e)

middle :
    (k : String) (a : NotifyingApplication) (d e : Dict String NotifyingApplication)
    → Named (d ++ (k, a) ∷ e)
    → (a.name ≡ k) × (lookup k d ≡ none)
unfolding lookup
middle k a [] e (n, r) = (n, refl)
middle k a ((j, b) ∷ d) e (n, (h, r)) =
    let (m, i) = middle k a d e r in
    let there = lookup_present k a d e in (m, ground (arith, string_eq.beq_iff k j))

insert_new :
    (k : String) (a : NotifyingApplication) (d : Dict String NotifyingApplication)
    → lookup k d ≡ none
    → insert k a d ≡ d ++ (k, a) ∷ []
unfolding insert lookup
insert_new k a [] h = refl
insert_new k a ((j, b) ∷ d) h = ground (arith, insert_new k a d)

load_step :
    (a : NotifyingApplication) (list : List NotifyingApplication)
    (d : Dict String NotifyingApplication)
    → lookup a.name d ≡ none
    → load_list (a ∷ list) d ≡ load_list list (d ++ (a.name, a) ∷ [])
unfolding load_list
load_step a list d h = rw (h, insert_new a.name a d h) refl

load_named :
    (k : String) (a : NotifyingApplication) (list : List NotifyingApplication)
    (d : Dict String NotifyingApplication)
    → a.name ≡ k
    → lookup k d ≡ none
    → load_list (a ∷ list) d ≡ load_list list (d ++ (k, a) ∷ [])
load_named k a list d m =
    subst (λ j. lookup j d ≡ none → load_list (a ∷ list) d ≡ load_list list (d ++ (j, a) ∷ [])) m
      (λ h. load_step a list d h)

load_values :
    (d e : Dict String NotifyingApplication) → Named (d ++ e) → load_list (values e) d ≡ d ++ e
unfolding values load_list
load_values d [] n = sym (append-nil d)
load_values d ((k, a) ∷ e) n =
    let (m, i) = middle k a d e n in
    let one = append_assoc d ((k, a) ∷ []) e in
    load_named k a (values e) d m i
    ∙ load_values (d ++ (k, a) ∷ []) e (subst Named (sym one) n)
    ∙ one

lookup_append :
    (j k : String) (a : NotifyingApplication) (d : Dict String NotifyingApplication)
    → lookup j d ≡ none
    → (j == k) ≡ false
    → lookup j (d ++ (k, a) ∷ []) ≡ none
unfolding lookup
lookup_append j k a [] h f = rw f refl
lookup_append j k a ((i, b) ∷ d) h f = ground (arith, lookup_append j k a d)

append-Named :
    (a : NotifyingApplication) (d : Dict String NotifyingApplication)
    → Named d
    → lookup a.name d ≡ none
    → Named (d ++ (a.name, a) ∷ [])
unfolding lookup
append-Named a [] n h = (refl, (refl, tt))
append-Named a ((j, b) ∷ d) (n, (i, r)) h = (
  n,
  (
    lookup_append j a.name a d i
        (ground (arith, string_eq.beq_iff a.name j, string_eq.beq_iff j a.name)),
    append-Named a d r (ground arith),
  ),
)

-- A value that was written to a stream is read from it again.
pub record Decodes (ds : Streams) : Type 0 where
  pub of_text : (s : String) (rest : Bytes) → ds.decode_text (ds.encode_text s ++ rest) ≡ (s, rest)
  pub of_flag : (b : Bool) (rest : Bytes) → ds.decode_flag (ds.encode_flag b ++ rest) ≡ (b, rest)

module _ (ds : Streams) (laws : Decodes ds) where
  -- An application that was written to a stream, with anything after it, is read from it again.
  pub read-write_application :
      (a : NotifyingApplication) (rest : Bytes)
      → read_application ds (write_application ds a [] ++ rest) ≡ (a, rest)
  unfolding read_application write_application
  read-write_application a rest =
      let name = ds.encode_text a.name in
      let icon = ds.encode_text a.icon in
      let active = ds.encode_flag a.active in
      let pattern = ds.encode_text a.blacklist_expression in
      let parts : (name ++ (icon ++ (active ++ pattern))) ++ rest
          ≡ name ++ (icon ++ (active ++ (pattern ++ rest))) =
        append_assoc name (icon ++ (active ++ pattern)) rest
        ∙ ap (λ l. name ++ l)
            (append_assoc icon (active ++ pattern) rest
              ∙ ap (λ l. icon ++ l) (append_assoc active pattern rest)) in
      ap (read_application ds) parts
      ∙ rw
          (
            laws.of_text a.name (icon ++ (active ++ (pattern ++ rest))),
            laws.of_text a.icon (active ++ (pattern ++ rest)),
            laws.of_flag a.active (pattern ++ rest),
            laws.of_text a.blacklist_expression rest,
          )
          refl

  read_list-write_list :
      (apps : List NotifyingApplication) → read_list ds (write_list ds apps) ≡ apps
  unfolding read_list write_list
  read_list-write_list [] = refl
  read_list-write_list (a ∷ apps) =
      let one : (read_application ds (write_application ds a [])).0 ≡ a =
        ap (λ bytes. (read_application ds bytes).0) (sym (append-nil (write_application ds a [])))
        ∙ ap (λ r. r.0) (read-write_application a []) in
      rw (one, read_list-write_list apps) refl

  load-add :
      (a : NotifyingApplication) (l : NotificationsListener)
      → Named l.applications
      → lookup a.name l.applications ≡ none
      → load_applications ds (add_application ds a l) ≡ add_application ds a l
  unfolding load_applications add_application
  load-add a l n h =
      let apps = insert a.name a l.applications in
      rw
        (
          read_list-write_list (values apps),
          load_values [] apps (
              subst Named (sym (insert_new a.name a l.applications h))
                (append-Named a l.applications n h)),
        )
        refl

  found :
      (name icon : String) (l : NotificationsListener)
      → lookup name l.applications ≡ none
      → (find_application ds name icon l).1 ≡ add_application ds (new_application name icon) l
  unfolding find_application
  found name icon l h = rw (find_application, h) refl

module _ (V Image : Type 0) (qt : Platform V Image) (laws : Decodes qt.streams) where
  notified :
      (n : Notify V) (l : NotificationsListener)
      → lookup n.app_name l.applications ≡ none
      → (hint_text V Image qt "x-nemo-owner" n == "harbour-sailfishconnect") ≡ false
      → (on_notify V Image qt n l).1
        ≡ add_application qt.streams (new_application n.app_name n.app_icon) l
  unfolding on_notify
  notified n l h own = rw own (found qt.streams laws n.app_name n.app_icon l h)

  -- An application that was not known is in the configuration after its first notification: given
  -- that a stream gives back the texts and flags that were written to it, the listener that reads
  -- its applications from the stored list again is the same, and knows this one as active.
  pub new_application_kept :
      (n : Notify V) (l : NotificationsListener)
      → Named l.applications
      → lookup n.app_name l.applications ≡ none
      → (hint_text V Image qt "x-nemo-owner" n == "harbour-sailfishconnect") ≡ false
      → (load_applications qt.streams (on_notify V Image qt n l).1 ≡ (on_notify V Image qt n l).1)
        × (lookup n.app_name (on_notify V Image qt n l).1.applications
            ≡ some (record {
              name = n.app_name;
              icon = n.app_icon;
              active = true;
              blacklist_expression = "";
            }))
  unfolding add_application new_application
  new_application_kept n l named h own = rw (notified n l h own) (
    load-add qt.streams laws (new_application n.app_name n.app_icon) l named h,
    lookup-insert_self n.app_name (new_application n.app_name n.app_icon) l.applications,
  )

-- ===== src/App/Devices/Listed.antt =====
-- Which devices app/src/models/devicelistmodel.cpp lists.
use harbour_sailfishconnect.Base.{
  ℕ, zero, suc, beq_refl, nat_eq, String, Bool, true, false, none, some, List, [], ◌∷◌, All,
  get_elem?, remove_at, contains, if◌then◌else◌, ◌==◌, string_eq, eqb, eqb_iff, is_some, ◌≡◌, refl,
  sym, ap, ◌∙◌, arith, Bool-cases, Option-cases, inl, inr,
}
use harbour_sailfishconnect.App.Devices.{
  Device, DeviceListModel, has_device, index_of_device, index_of_pointer, connect_device,
  connect_each, new_model, device_id_added, device_removed, device_id_removed,
}
use harbour_sailfishconnect.App.Devices.Rows.{
  ids, Distinct, drop_first, index-contains, append-contains, append-Distinct, drop_first-contains,
  drop_first-Distinct, first_row, later_row, drop_first-Coherent, append-All,
}

-- What happens to the daemon: a device comes, or one goes.
pub data Event : Type 0 where
  came : Device → Event
  gone : String → Event

abbrev pub listen : List Event → DeviceListModel → DeviceListModel
listen [] m = m
listen (came d ∷ events) m = listen events (device_id_added d.id (some d) m).1
listen (gone id ∷ events) m = listen events (device_id_removed id m).1

-- Is the device there after the events, if it was before them?
abbrev pub is_there : String → List Event → Bool → Bool
is_there id [] before = before
is_there id (came d ∷ events) before = is_there id events (if d.id == id then true else before)
is_there id (gone other ∷ events) before =
    is_there id events (if other == id then false else before)

module _ (id_of : ℕ → String) where
  -- The identity belongs to the pointer.
  abbrev pub Coherent : Device → Type 0
  Coherent d = d.id ≡ id_of d.self

  known_pointer :
      (d : Device) (xs : List Device)
      → Coherent d
      → All Coherent xs
      → has_device d xs ≡ true
      → contains (ids xs) d.id ≡ true
  unfolding has_device
  known_pointer d [] c cs h = cc
  known_pointer d (x ∷ xs) c (cx, cs) h = elim (Bool-cases (eqb x.self d.self)) [
    | inl t ↦
        let same : x.self ≡ d.self = (eqb_iff x.self d.self).0 t in
        let equal : x.id ≡ d.id = cx ∙ ap id_of same ∙ sym c in
        ground (arith, string_eq.beq_iff x.id d.id)
    | inr n ↦ ground (arith, known_pointer d xs c cs, n)
  ]

  -- The row of an identity is that of its device's pointer.
  row_of_device :
      (id : String) (xs : List Device) (row : ℕ)
      → All Coherent xs
      → index_of_device id xs ≡ some row
      → (d : Device) × (get_elem? xs row ≡ some d)
        × (d.id ≡ id)
        × (index_of_pointer d.self xs ≡ some row)
        × Coherent d
        × (remove_at xs row ≡ drop_first id xs)
  unfolding index_of_device index_of_pointer
  row_of_device id [] row cs h = let clash : ⊥ = cc in elim clash [ ]
  row_of_device id (x ∷ xs) zero (cx, cs) h = elim (Bool-cases (x.id == id)) [
    | inl t ↦ (x, refl, (string_eq.beq_iff x.id id).0 t, rw (beq_refl x.self) refl, cx, rw t refl)
    | inr n ↦ elim (first_row x.id id (index_of_device id xs) n h) [ ]
  ]
  row_of_device id (x ∷ xs) (suc row) (cx, cs) h =
      let (n, e) = later_row (x.id == id) (index_of_device id xs) row h in
      let (d, at, is, p, c, r) = row_of_device id xs row cs e in
      let other : eqb x.self d.self ≡ false = elim (Bool-cases (eqb x.self d.self)) [
        | inl t ↦
            let same : x.self ≡ d.self = (eqb_iff x.self d.self).0 t in
            let equal : x.id ≡ id = cx ∙ ap id_of same ∙ sym c ∙ is in
            ground (arith, string_eq.beq_iff x.id id)
        | inr f ↦ f
      ] in
      (d, at, is, rw (other, p) refl, c, rw n (ap (λ l. x ∷ l) r))

  abbrev pub Fits : Event → Type 0
  Fits (came d) = Coherent d
  Fits (gone id) = Unit

  pub record Lists (devices : List Device) (there : String → Bool) : Type 0 where
    pub coherent : All Coherent devices
    pub distinct : Distinct (ids devices)
    pub listed : (id : String) → contains (ids devices) id ≡ there id

  absent_lem :
      (id : String) (m : DeviceListModel) (there : String → Bool)
      → Lists m.devices there
      → index_of_device id m.devices ≡ none
      → (j : String) → contains (ids m.devices) j ≡ (if id == j then false else there j)
  absent_lem id m there l e j =
      let no : contains (ids m.devices) id ≡ false =
        sym (index-contains id m.devices) ∙ ap is_some e in
      elim (Bool-cases (id == j)) [
        | inl t ↦ rw t (ap (contains (ids m.devices)) (sym ((string_eq.beq_iff id j).0 t)) ∙ no)
        | inr n ↦ rw n (l.listed j)
      ]

  present_lem :
      (id : String) (m : DeviceListModel) (there : String → Bool)
      → Lists m.devices there
      → contains (ids m.devices) id ≡ true
      → Lists m.devices (λ j. if id == j then true else there j)
  present_lem id m there l found = record {
    coherent = l.coherent;
    distinct = l.distinct;
    listed = λ j. elim (Bool-cases (id == j)) [
      | inl t ↦ rw t (ap (contains (ids m.devices)) (sym ((string_eq.beq_iff id j).0 t)) ∙ found)
      | inr n ↦ rw n (l.listed j)
    ];
  }

  removed-Lists :
      (id : String) (m : DeviceListModel) (there : String → Bool)
      → Lists m.devices there
      → Lists (device_id_removed id m).1.devices (λ j. if id == j then false else there j)
  unfolding device_id_removed device_removed
  removed-Lists id m there l = elim (Option-cases (index_of_device id m.devices)) [
    | inl e ↦
        rw (device_id_removed, e)
          (record {
            coherent = l.coherent;
            distinct = l.distinct;
            listed = λ j. absent_lem id m there l e j;
          })
    | inr (row, e) ↦
        let (d, at, is, p, c, r) = row_of_device id m.devices row l.coherent e in
        rw (device_id_removed, e, at, device_removed, p, r)
          (record {
            coherent = drop_first-Coherent Coherent id m.devices l.coherent;
            distinct = drop_first-Distinct id m.devices l.distinct;
            listed = λ j. ground (arith, drop_first-contains id j m.devices l.distinct, l.listed j);
          })
  ]

  added-Lists :
      (d : Device) (m : DeviceListModel) (there : String → Bool)
      → Coherent d
      → Lists m.devices there
      → Lists (device_id_added d.id (some d) m).1.devices (λ j. if d.id == j then true else there j)
  unfolding device_id_added connect_device
  added-Lists d m there c l = elim (Bool-cases (has_device d m.devices)) [
    | inl t ↦
        rw (device_id_added, t)
          (present_lem d.id m there l (known_pointer d m.devices c l.coherent t))
    | inr f ↦
        rw (device_id_added, f)
          (elim (Option-cases (index_of_device d.id m.devices)) [
            | inl e ↦
                let no : contains (ids m.devices) d.id ≡ false =
                  sym (index-contains d.id m.devices) ∙ ap is_some e in
                rw e (record {
                  coherent = append-All Coherent m.devices d l.coherent c;
                  distinct = append-Distinct m.devices d l.distinct no;
                  listed = λ j. ground (arith, append-contains j m.devices d, l.listed j);
                })
            | inr (row, e) ↦
                rw e
                  (present_lem d.id m there l (sym (index-contains d.id m.devices) ∙ ap is_some e))
          ])
  ]

  listen-Lists :
      (events : List Event) (m : DeviceListModel) (there : String → Bool)
      → All Fits events
      → Lists m.devices there
      → Lists (listen events m).devices (λ j. is_there j events (there j))
  listen-Lists [] m there f l = l
  listen-Lists (came d ∷ events) m there (f, fs) l =
      listen-Lists events (device_id_added d.id (some d) m).1
        (λ j. if d.id == j then true else there j) fs (added-Lists d m there f l)
  listen-Lists (gone id ∷ events) m there (f, fs) l =
      listen-Lists events (device_id_removed id m).1 (λ j. if id == j then false else there j) fs
        (removed-Lists id m there l)

  -- Whatever devices come to the daemon and go from it, in any order, the list that was empty at
  -- first holds exactly the identities of those that are there, each once, if a pointer's identity
  -- does not change.
  pub devices-Lists :
      (events : List Event)
      → All Fits events
      → Lists (listen events (new_model [])).devices (λ id. is_there id events false)
  unfolding new_model connect_each
  devices-Lists events f =
      listen-Lists events (new_model []) (λ id. false) f
        (record { coherent = tt; distinct = tt; listed = λ id. refl })

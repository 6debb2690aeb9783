-- ===== src/App/Devices.antt =====
-- app/src/models/devicelistmodel.cpp: the list of devices, which mirrors the daemon's. A device is an
-- object, given by its pointer, with an identity that does not change.
pub mod Rows
pub mod Listed
use harbour_sailfishconnect.Base.{
  ℕ, suc, String, Bool, true, false, Option, none, some, List, [], ◌∷◌, ◌++◌, length, get_elem?,
  remove_at, if◌then◌else◌, ◌==◌, string_eq, eqb,
}

pub record Device : Type 0 where
  pub self : ℕ
  pub id : String

pub data ModelSignal : Type 0 where
  rows_inserted rows_removed : ℕ → ModelSignal
  data_changed : ℕ → ModelSignal

-- The devices in the list, and the pointers of those whose signals are connected.
pub record DeviceListModel : Type 0 where
  pub devices : List Device
  pub connected : List ℕ

abbrev pub Emitting : Type 0
Emitting = List ModelSignal × DeviceListModel

unfoldable pub has_device : Device → List Device → Bool
has_device d [] = false
has_device d (x ∷ xs) = if eqb x.self d.self then true else has_device d xs

-- The first row with the identity, and the first with the pointer.
unfoldable pub index_of_device : String → List Device → Option ℕ
index_of_device id [] = none
index_of_device id (x ∷ xs) =
    if x.id == id
    then some 0
    else elim (index_of_device id xs) [ none ↦ none | some i ↦ some (suc i) ]

unfoldable pub index_of_pointer : ℕ → List Device → Option ℕ
index_of_pointer p [] = none
index_of_pointer p (x ∷ xs) =
    if eqb x.self p
    then some 0
    else elim (index_of_pointer p xs) [ none ↦ none | some i ↦ some (suc i) ]

unfoldable pub connect_device : Device → DeviceListModel → DeviceListModel
connect_device d m = record m { connected = d.self ∷ m.connected }

unfoldable pub without : ℕ → List ℕ → List ℕ
without p [] = []
without p (q ∷ qs) = let rest = without p qs in if eqb q p then rest else q ∷ rest

unfoldable pub connect_each : List Device → DeviceListModel → DeviceListModel
unfolding connect_device
connect_each [] m = m
connect_each (d ∷ ds) m = connect_each ds (connect_device d m)

-- The constructor, given the daemon's devices.
unfoldable pub new_model : List Device → DeviceListModel
unfolding connect_each
new_model devices = connect_each devices (record { devices = devices; connected = [] })

-- deviceIdAdded(), given what the daemon's getDevice() finds.
unfoldable pub device_id_added : String → Option Device → DeviceListModel → Emitting
unfolding has_device index_of_device connect_device
device_id_added id none m = ([], m)
device_id_added id (some d) m =
    if has_device d m.devices then ([], m) else elim (index_of_device id m.devices) [
      | none ↦ (
        rows_inserted (length m.devices) ∷ [],
        connect_device d (record m { devices = m.devices ++ d ∷ [] }),
      )
      | some row ↦ ([], connect_device d m)
    ]

unfoldable pub device_removed : ℕ → DeviceListModel → Emitting
unfolding index_of_pointer without
device_removed p m = elim (index_of_pointer p m.devices) [
  | none ↦ ([], m)
  | some row ↦ (
    rows_removed row ∷ [],
    record { devices = remove_at m.devices row; connected = without p m.connected },
  )
]

unfoldable pub device_id_removed : String → DeviceListModel → Emitting
unfolding index_of_device device_removed
device_id_removed id m = elim (index_of_device id m.devices) [
  | none ↦ ([], m)
  | some row ↦ elim (get_elem? m.devices row) [ none ↦ ([], m) | some d ↦ device_removed d.self m ]
]

unfoldable pub device_data_changed : ℕ → DeviceListModel → Emitting
unfolding index_of_pointer
device_data_changed p m = elim (index_of_pointer p m.devices) [
  | none ↦ ([], m)
  | some row ↦ (data_changed row ∷ [], m)
]

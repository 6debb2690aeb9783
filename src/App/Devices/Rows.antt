-- ===== src/App/Devices/Rows.antt =====
-- The rows of app/src/models/devicelistmodel.cpp: finding, appending and dropping an identity.
use harbour_sailfishconnect.Base.{
  ℕ, suc, ◌≢◌, nat_eq, String, Bool, true, false, ◌||◌, Option, none, some, List, [], ◌∷◌, ◌++◌,
  All, contains, if◌then◌else◌, ◌==◌, string_eq, is_some, ◌≡◌, refl, arith, Bool-cases,
  Option-cases, inl, inr,
}
use harbour_sailfishconnect.App.Devices.{Device, index_of_device}

abbrev pub ids : List Device → List String
ids [] = []
ids (d ∷ ds) = d.id ∷ ids ds

abbrev pub Distinct : List String → Type 0
Distinct [] = Unit
Distinct (x ∷ xs) = (contains xs x ≡ false) × Distinct xs

-- The list without the first device of the identity.
abbrev pub drop_first : String → List Device → List Device
drop_first id [] = []
drop_first id (x ∷ xs) = if x.id == id then xs else x ∷ drop_first id xs

pub index-contains :
    (id : String) (xs : List Device) → is_some (index_of_device id xs) ≡ contains (ids xs) id
unfolding index_of_device
index-contains id [] = refl
index-contains id (x ∷ xs) = elim (Option-cases (index_of_device id xs)) [
  | inl e ↦ ground (arith, index-contains id xs, e)
  | inr (i, e) ↦ ground (arith, index-contains id xs, e)
]

pub append-contains :
    (id : String) (xs : List Device) (d : Device)
    → contains (ids (xs ++ d ∷ [])) id ≡ (contains (ids xs) id || (d.id == id))
append-contains id [] d = ground arith
append-contains id (x ∷ xs) d = ground (arith, append-contains id xs d)

pub append-Distinct :
    (xs : List Device) (d : Device)
    → Distinct (ids xs)
    → contains (ids xs) d.id ≡ false
    → Distinct (ids (xs ++ d ∷ []))
append-Distinct [] d h n = (refl, tt)
append-Distinct (x ∷ xs) d (h, hs) n = (
  ground
      (arith, append-contains x.id xs d, string_eq.beq_iff x.id d.id, string_eq.beq_iff d.id x.id),
  append-Distinct xs d hs (ground arith),
)

pub drop_first-contains :
    (id other : String) (xs : List Device)
    → Distinct (ids xs)
    → contains (ids (drop_first id xs)) other
      ≡ (if id == other then false else contains (ids xs) other)
drop_first-contains id other [] h = ground arith
drop_first-contains id other (x ∷ xs) (h, hs) = ground (
  arith,
  drop_first-contains id other xs hs,
  string_eq.beq_iff x.id id,
  string_eq.beq_iff x.id other,
  string_eq.beq_iff id other,
)

pub drop_first-Distinct :
    (id : String) (xs : List Device) → Distinct (ids xs) → Distinct (ids (drop_first id xs))
drop_first-Distinct id [] h = tt
drop_first-Distinct id (x ∷ xs) (h, hs) = elim (Bool-cases (x.id == id)) [
  | inl t ↦ rw t hs
  | inr n ↦ rw n (ground (arith, drop_first-contains id x.id xs hs), drop_first-Distinct id xs hs)
]

pub first_row :
    (a b : String) (o : Option ℕ)
    → (a == b) ≡ false
    → (if a == b then some 0 else elim o [ none ↦ none | some i ↦ some (suc i) ]) ≢ some 0
first_row a b none n h = ground arith
first_row a b (some i) n h = ground arith

pub later_row :
    (b : Bool) (o : Option ℕ) (row : ℕ)
    → (if b then some 0 else elim o [ none ↦ none | some i ↦ some (suc i) ]) ≡ some (suc row)
    → (b ≡ false) × (o ≡ some row)
later_row true o row h = ground arith
later_row false none row h = ground arith
later_row false (some i) row h = ground arith

pub drop_first-Coherent :
    (P : Device → Type 0) (id : String) (xs : List Device) → All P xs → All P (drop_first id xs)
drop_first-Coherent P id [] h = tt
drop_first-Coherent P id (x ∷ xs) (h, hs) = elim (Bool-cases (x.id == id)) [
  | inl t ↦ rw t hs
  | inr n ↦ rw n (h, drop_first-Coherent P id xs hs)
]

pub append-All :
    (P : Device → Type 0) (xs : List Device) (d : Device) → All P xs → P d → All P (xs ++ d ∷ [])
append-All P [] d h p = (p, tt)
append-All P (x ∷ xs) d (h, hs) p = (h, append-All P xs d hs p)

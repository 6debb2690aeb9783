-- ===== src/App/Models/Players.antt =====
-- The order of the players in app/src/models/mprisplayersmodel.cpp.
use harbour_sailfishconnect.Base.{
  ℕ, zero, suc, ap, ◌∙◌, subst, ◌||◌, if◌then◌else◌, String, Bool, true, false, ◌≡◌, refl, none,
  some, List, [], ◌∷◌, get_elem?, remove_at, insert_at, index_of, contains, ◌==◌, string_eq, arith,
  if_elim, beq_refl, Bool-cases, inl, inr, Option-cases,
}
use harbour_sailfishconnect.App.Models.{
  ModelSignal, lower_bound, insert_player, is_at, player_added, player_removed,
}

-- A strict total order, as QString's operator< is.
pub record Order (less : String → String → Bool) : Type 0 where
  pub irreflexive : (a : String) → less a a ≡ false
  pub transitive : (a b c : String) → less a b ≡ true → less b c ≡ true → less a c ≡ true
  pub total : (a b : String) → less a b ≡ false → less b a ≡ false → a ≡ b

-- What the plugin tells the model, one after the other.
pub data Notice : Type 0 where
  came went : String → Notice

-- Is the player there after the notices, if it was before them?
abbrev pub is_there : String → List Notice → Bool → Bool
is_there name [] before = before
is_there name (came other ∷ more) before =
    is_there name more (if other == name then true else before)
is_there name (went other ∷ more) before =
    is_there name more (if other == name then false else before)

module _ (less : String → String → Bool) (order : Order less) where
  -- Every name is less than all that follow it: the names are sorted, and each is there once.
  abbrev pub Below : String → List String → Type 0
  Below a [] = Unit
  Below a (x ∷ xs) = (less a x ≡ true) × Below a xs

  abbrev pub Sorted : List String → Type 0
  Sorted [] = Unit
  Sorted (x ∷ xs) = Below x xs × Sorted xs

  Below-trans : (a b : String) (l : List String) → less a b ≡ true → Below b l → Below a l
  Below-trans a b [] h k = tt
  Below-trans a b (x ∷ l) h (k, ks) = (order.transitive a b x h k, Below-trans a b l h ks)

  insert-Below :
      (i : ℕ) (a name : String) (l : List String)
      → less a name ≡ true
      → Below a l
      → Below a (insert_at i name l)
  insert-Below zero a name l h k = (h, k)
  insert-Below (suc i) a name [] h k = (h, tt)
  insert-Below (suc i) a name (x ∷ l) h (k, ks) = (k, insert-Below i a name l h ks)

  front :
      (name x : String) (l : List String)
      → Sorted (x ∷ l)
      → less x name ≡ false
      → (x == name) ≡ false
      → Sorted (name ∷ x ∷ l)
  front name x l (b, s) f h =
      let t : less name x ≡ true = elim (Bool-cases (less name x)) [
        | inl t ↦ t
        | inr g ↦ ground (arith, string_eq.beq_iff x name, order.total x name f g)
      ] in
      ((t, Below-trans name x l t b), (b, s))

  added-Sorted :
      (name : String) (l : List String)
      → Sorted l
      → is_at (get_elem? l (lower_bound less name l)) name ≡ false
      → Sorted (insert_at (lower_bound less name l) name l)
  unfolding lower_bound is_at
  added-Sorted name [] s = λ h. (tt, tt)
  added-Sorted name (x ∷ l) (b, s) =
      if_elim
        (λ (i : ℕ). is_at (get_elem? (x ∷ l) i) name ≡ false → Sorted (insert_at i name (x ∷ l)))
        (less x name)
        (λ t h. (insert-Below (lower_bound less name l) x name l t b, added-Sorted name l s h))
        (λ f h. front name x l (b, s) f h)

  remove-Below : (a : String) (i : ℕ) (l : List String) → Below a l → Below a (remove_at l i)
  remove-Below a i [] b = tt
  remove-Below a zero (x ∷ l) (k, ks) = ks
  remove-Below a (suc i) (x ∷ l) (k, ks) = (k, remove-Below a i l ks)

  remove-Sorted : (i : ℕ) (l : List String) → Sorted l → Sorted (remove_at l i)
  remove-Sorted i [] s = tt
  remove-Sorted zero (x ∷ l) (b, s) = s
  remove-Sorted (suc i) (x ∷ l) (b, s) = (remove-Below x i l b, remove-Sorted i l s)

  Below-absent : (a : String) (l : List String) → Below a l → contains l a ≡ false
  Below-absent a [] b = refl
  Below-absent a (x ∷ l) (k, ks) =
      ground (arith, Below-absent a l ks, string_eq.beq_iff x a, order.irreflexive a)

  index_gone :
      (name : String) (i : ℕ) (l : List String)
      → Sorted l
      → index_of l name ≡ some i
      → contains (remove_at l i) name ≡ false
  index_gone name i [] s h = cc
  index_gone name zero (x ∷ l) (b, s) h =
      ground (arith, Below-absent x l b, string_eq.beq_iff x name)
  index_gone name (suc i) (x ∷ l) (b, s) h = ground (arith, index_gone name i l s)

  index_none : (name : String) (l : List String) → index_of l name ≡ none → contains l name ≡ false
  index_none name [] h = refl
  index_none name (x ∷ l) h = ground (arith, index_none name l)

  insert_contains :
      (name : String) (i : ℕ) (l : List String) → contains (insert_at i name l) name ≡ true
  insert_contains name zero l = rw (beq_refl name) refl
  insert_contains name (suc i) [] = rw (beq_refl name) refl
  insert_contains name (suc i) (x ∷ l) = ground (arith, insert_contains name i l)

  at_contains :
      (name : String) (i : ℕ) (l : List String)
      → is_at (get_elem? l i) name ≡ true
      → contains l name ≡ true
  unfolding is_at
  at_contains name i [] h = cc
  at_contains name zero (x ∷ l) h = ground arith
  at_contains name (suc i) (x ∷ l) h = ground (arith, at_contains name i l h)

  player_added-Sorted :
      (name : String) (l : List String)
      → Sorted l
      → Sorted (player_added less name l).1 × (contains (player_added less name l).1 name ≡ true)
  unfolding player_added insert_player
  player_added-Sorted name l s =
      let i = lower_bound less name l in
      if_elim (λ (r : List ModelSignal × List String). Sorted r.1 × (contains r.1 name ≡ true))
        (is_at (get_elem? l i) name) (λ t. (s, at_contains name i l t))
        (λ f. (added-Sorted name l s f, insert_contains name i l))

  player_removed-Sorted :
      (name : String) (l : List String)
      → Sorted l
      → Sorted (player_removed name l).1 × (contains (player_removed name l).1 name ≡ false)
  unfolding player_removed
  player_removed-Sorted name l s = elim (Option-cases (index_of l name)) [
    | inl h ↦ rw (player_removed, h) (s, index_none name l h)
    | inr (i, h) ↦ rw (player_removed, h) (remove-Sorted i l s, index_gone name i l s h)
  ]

  insert_others :
      (name other : String) (i : ℕ) (l : List String)
      → (name == other) ≡ false
      → contains (insert_at i name l) other ≡ contains l other
  insert_others name other zero l d = rw d refl
  insert_others name other (suc i) [] d = rw d refl
  insert_others name other (suc i) (x ∷ l) d =
      ap (λ b. (x == other) || b) (insert_others name other i l d)

  remove_others :
      (name other : String) (i : ℕ) (l : List String)
      → (name == other) ≡ false
      → index_of l name ≡ some i
      → contains (remove_at l i) other ≡ contains l other
  remove_others name other i [] d h = refl
  remove_others name other zero (x ∷ l) d h =
      ground (arith, string_eq.beq_iff x name, string_eq.beq_iff x other)
  remove_others name other (suc i) (x ∷ l) d h = ground (arith, remove_others name other i l d)

  added_others :
      (name other : String) (l : List String)
      → (name == other) ≡ false
      → contains (player_added less name l).1 other ≡ contains l other
  unfolding player_added insert_player
  added_others name other l d =
      if_elim (λ (r : List ModelSignal × List String). contains r.1 other ≡ contains l other)
        (is_at (get_elem? l (lower_bound less name l)) name) (λ t. refl)
        (λ f. insert_others name other (lower_bound less name l) l d)

  removed_others :
      (name other : String) (l : List String)
      → (name == other) ≡ false
      → contains (player_removed name l).1 other ≡ contains l other
  unfolding player_removed
  removed_others name other l d = elim (Option-cases (index_of l name)) [
    | inl h ↦ rw (player_removed, h) refl
    | inr (i, h) ↦ rw (player_removed, h) (remove_others name other i l d h)
  ]

  abbrev pub notify_all : List Notice → List String → List String
  notify_all [] l = l
  notify_all (came name ∷ more) l = notify_all more (player_added less name l).1
  notify_all (went name ∷ more) l = notify_all more (player_removed name l).1

  came-contains :
      (name other : String) (l : List String)
      → Sorted l
      → contains (player_added less other l).1 name
        ≡ (if other == name then true else contains l name)
  came-contains name other l s = elim (Bool-cases (other == name)) [
    | inl t ↦
        let same : other ≡ name = (string_eq.beq_iff other name).0 t in
        rw t (
          subst (λ n. contains (player_added less other l).1 n ≡ true) same
            (player_added-Sorted other l s).1)
    | inr d ↦ rw d (added_others other name l d)
  ]

  went-contains :
      (name other : String) (l : List String)
      → Sorted l
      → contains (player_removed other l).1 name
        ≡ (if other == name then false else contains l name)
  went-contains name other l s = elim (Bool-cases (other == name)) [
    | inl t ↦
        let same : other ≡ name = (string_eq.beq_iff other name).0 t in
        rw t (
          subst (λ n. contains (player_removed other l).1 n ≡ false) same
            (player_removed-Sorted other l s).1)
    | inr d ↦ rw d (removed_others other name l d)
  ]

  -- With a strict total order, the model's list is the set of the players, sorted: after any
  -- notices of added and removed players, also of ones that are there already or not there, it is
  -- sorted without repetitions, and a player is in it exactly when the last notice of the player
  -- said that it was added, or when there was none and it was in the list before.
  pub players-Sorted :
      (notices : List Notice) (l : List String)
      → Sorted l
      → Sorted (notify_all notices l)
        × ((name : String)
            → contains (notify_all notices l) name ≡ is_there name notices (contains l name))
  players-Sorted [] l s = (s, λ name. refl)
  players-Sorted (came other ∷ more) l s =
      let (sorted, there) =
        players-Sorted more (player_added less other l).1 (player_added-Sorted other l s).0 in
      (sorted, λ name. there name ∙ ap (is_there name more) (came-contains name other l s))
  players-Sorted (went other ∷ more) l s =
      let (sorted, there) =
        players-Sorted more (player_removed other l).1 (player_removed-Sorted other l s).0 in
      (sorted, λ name. there name ∙ ap (is_there name more) (went-contains name other l s))

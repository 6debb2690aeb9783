-- ===== src/Io/FileHelper/Fresh.antt =====
-- nonexistingFile of pluginscommon/filehelper.cpp finds a free name, and its loop ends.
use text.Mathlib.TextLemmas.{append_cancel_left, append_cancel_right}
use harbour_sailfishconnect.Base.{
  ℕ, zero, suc, ◌+◌, ◌≤◌, ◌<◌, String, ◌<>◌, ◌≡◌, refl, ◌≢◌, Bool, true, false, arith,
  if◌then◌else◌, ◌==◌, string_eq, List, [], ◌∷◌, length, contains, some, Bool-cases, inl, inr, Eq,
}
use harbour_sailfishconnect.Io.FileHelper.{
  Numbers, NameParts, FilePath, name_prefix, name_suffix, candidate, search, nonexisting_file,
}

module _ {ℓ} {A : Type ℓ} ⦃e : Eq A⦄ where
  -- One occurrence of a name is taken off a list.
  take_off : A → List A → List A
  take_off a [] = []
  take_off a (x ∷ xs) = if x == a then xs else x ∷ take_off a xs

  length-take_off :
      (a : A) (xs : List A) → contains xs a ≡ true → length (take_off a xs) + 1 ≡ length xs
  unfolding take_off
  length-take_off a [] h = cc
  length-take_off a (x ∷ xs) h = ground (arith, length-take_off a xs)

  contains-take_off :
      (a b : A) (xs : List A) → a ≢ b → contains xs b ≡ true → contains (take_off a xs) b ≡ true
  unfolding take_off
  contains-take_off a b [] n h = h
  contains-take_off a b (x ∷ xs) n h =
      ground (arith, contains-take_off a b xs n, e.beq_iff x a, e.beq_iff x b)

numbered_injective :
    (num : Numbers) (b : Bool) (front back : String) (i j : ℕ)
    → (if b
        then back <> (" (" <> (num.print i <> ")"))
        else front <> (" (" <> (num.print i <> (")" <> back))))
      ≡ (if b
          then back <> (" (" <> (num.print j <> ")"))
          else front <> (" (" <> (num.print j <> (")" <> back))))
    → i ≡ j
numbered_injective num true front back i j h = num.print_injective i j (
    append_cancel_right (num.print i) (num.print j) ")"
      (append_cancel_left " (" _ _ (append_cancel_left back _ _ h)))
numbered_injective num false front back i j h = num.print_injective i j (
    append_cancel_right (num.print i) (num.print j) (")" <> back)
      (append_cancel_left " (" _ _ (append_cancel_left front _ _ h)))

module _ (num : Numbers) (parts : NameParts) (exists : FilePath → Bool) (path : FilePath) where
  -- The candidates are different from one another, so none is tried twice.
  candidate_injective :
      (i j : ℕ) → (candidate num parts path i).name ≡ (candidate num parts path j).name → i ≡ j
  unfolding candidate
  candidate_injective i j h =
      numbered_injective num (name_prefix num parts path == "") (name_prefix num parts path)
        (name_suffix num parts path) i j h

  candidate-dir : (i : ℕ) → (candidate num parts path i).dir ≡ path.dir
  unfolding candidate
  candidate-dir i = refl

  -- What the loop returns is free, and it lies in the same directory.
  search_free :
      (fuel i : ℕ) (result r : FilePath)
      → result.dir ≡ path.dir
      → search num parts exists path fuel i result ≡ some r
      → (exists r ≡ false) × (r.dir ≡ path.dir)
  unfolding search
  search_free zero i result r d h = cc
  search_free (suc fuel) i result r d h =
      ground (
        arith,
        search_free fuel (i + 1) (candidate num parts path (i + 1)) r,
        candidate-dir (i + 1),
      )

  -- With fewer taken names left than there is fuel the loop ends.
  search_total :
      (fuel i : ℕ) (taken : List String)
      → ((k : ℕ)
          → i ≤ k
          → exists (candidate num parts path k) ≡ true
          → contains taken (candidate num parts path k).name ≡ true)
      → length taken < fuel
      → (r : FilePath) × (search num parts exists path fuel i (candidate num parts path i) ≡ some r)
  unfolding search
  search_total zero i taken h lt = elim lt [ ]
  search_total (suc fuel) i taken h lt = elim (Bool-cases (exists (candidate num parts path i))) [
    | inl e ↦
        rw (e, search)
          (search_total fuel (i + 1) (take_off (candidate num parts path i).name taken)
            (λ k above used.
              contains-take_off _ _ taken
                (λ same. absurd (omega (arith, candidate_injective i k same)))
                (h k (omega arith) used))
            (omega (arith, length-take_off _ taken (h i (omega arith) e))))
    | inr e ↦ (candidate num parts path i, rw (e, search))
  ]

  candidate_in_dir :
      (k : ℕ)
      → exists (candidate num parts path k) ≡ true
      → exists (record { dir = path.dir; name = (candidate num parts path k).name }) ≡ true
  unfolding candidate
  candidate_in_dir k h = h

  pub nonexisting_file_free :
      (fuel : ℕ) (r : FilePath)
      → nonexisting_file num parts exists fuel path ≡ some r
      → (exists r ≡ false) × (r.dir ≡ path.dir)
  unfolding nonexisting_file
  nonexisting_file_free fuel r = search_free fuel 0 path r refl

  -- The loop ends. If the names taken in the directory are all in the list `taken`, two more
  -- rounds than it has entries are enough: the search returns a path, which does not exist, lies in
  -- the directory asked for, and is the path itself if that is free.
  pub nonexisting_file_total :
      (taken : List String)
      → ((name : String)
          → exists (record { dir = path.dir; name = name }) ≡ true
          → contains taken name ≡ true)
      → (r : FilePath) × (nonexisting_file num parts exists (suc (suc (length taken))) path
          ≡ some r)
        × (exists r ≡ false)
        × (r.dir ≡ path.dir)
        × (exists path ≡ false → r ≡ path)
  unfolding nonexisting_file
  nonexisting_file_total taken h = elim (Bool-cases (exists path)) [
    | inl e ↦
        let (r, found) =
          search_total (suc (length taken)) 1 taken (λ k _ used. h _ (candidate_in_dir k used))
            (omega arith) in
        let (free, dir) = search_free (suc (length taken)) 1 _ r (candidate-dir 1) found in
        (r, rw (e, search) found, free, dir, λ no_file. cc)
    | inr e ↦ (path, rw (e, search), e, refl, λ _. refl)
  ]

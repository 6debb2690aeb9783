-- ===== src/Io/DownloadJob/Safety.antt =====
-- doStart() of pluginscommon/downloadjob.cpp writes to a file of its own.
use harbour_sailfishconnect.Base.{
  ℕ, suc, String, true, false, ◌≡◌, refl, ◌⊎◌, inl, inr, not, Option, none, some, List, ◌∷◌, length,
  contains, string_eq, arith, subst, ap, some-injective, if_elim,
}
use harbour_sailfishconnect.Io.Device.{Source, Sink}
use harbour_sailfishconnect.Io.FileHelper.{FilePath, Numbers, NameParts}
use harbour_sailfishconnect.Io.FileHelper.Fresh.{nonexisting_file_total, nonexisting_file_free}
use harbour_sailfishconnect.Io.DownloadJob.{Files, DownloadJob, choose, transfer, open_at, do_start}

module _ (src : Source) (snk : Sink) (num : Numbers) (parts : NameParts) where
  -- What a start may do to the file system: nothing, or write to one file that was not there.
  abbrev pub WritesFresh : Files snk.State → DownloadJob src snk → DownloadJob src snk → Type 0
  WritesFresh fs d e =
      (e.destination.dir ≡ d.destination.dir)
      × (e.removed ≡ d.removed)
      × ((e.written_to ≡ d.written_to)
          ⊎ ((fs.exists e.destination ≡ false) × (e.written_to ≡ e.destination ∷ d.written_to)))

  choose_free :
      (fs : Files snk.State) (fuel : ℕ) (d : DownloadJob src snk) (path : FilePath)
      → choose src snk num parts fs fuel d ≡ some path
      → (fs.exists path ≡ false) × (path.dir ≡ d.destination.dir)
  unfolding choose
  choose_free fs fuel d path h =
      ground (arith, nonexisting_file_free num parts fs.exists d.destination fuel path)

  transfer-WritesFresh :
      (fs : Files snk.State) (d : DownloadJob src snk) (r : Option snk.State) (path : FilePath)
      → fs.exists path ≡ false
      → path.dir ≡ d.destination.dir
      → WritesFresh fs d (transfer src snk num parts r (record d { destination = path }))
  unfolding transfer
  transfer-WritesFresh fs d none path free dir = (dir, refl, inl refl)
  transfer-WritesFresh fs d (some file) path free dir = (dir, refl, inr (free, refl))

  open_at-WritesFresh :
      (fs : Files snk.State) (d e : DownloadJob src snk) (c : Option FilePath)
      → ((path : FilePath)
          → c ≡ some path
          → (fs.exists path ≡ false) × (path.dir ≡ d.destination.dir))
      → open_at src snk num parts fs d c ≡ some e
      → WritesFresh fs d e
  unfolding open_at
  open_at-WritesFresh fs d e none h eq = cc
  open_at-WritesFresh fs d e (some path) h eq =
      let (free, dir) = h path refl in
      subst (WritesFresh fs d) (some-injective _ _ eq)
        (transfer-WritesFresh fs d (fs.open_write path) path free dir)

  some_start-WritesFresh :
      (fs : Files snk.State) (fuel : ℕ) (d e : DownloadJob src snk)
      → do_start src snk num parts fs fuel d ≡ some e
      → WritesFresh fs d e
  unfolding do_start
  some_start-WritesFresh fs fuel d e =
      if_elim (λ m. m ≡ some e → WritesFresh fs d e) (not (fs.make_path d.destination.dir))
        (λ _ eq. subst (WritesFresh fs d) (some-injective _ _ eq) (refl, refl, inl refl))
        (λ _.
          open_at-WritesFresh fs d e (choose src snk num parts fs fuel d) (choose_free fs fuel d))

  choose_total :
      (fs : Files snk.State) (d : DownloadJob src snk) (taken : List String)
      → ((name : String)
          → fs.exists (record { dir = d.destination.dir; name = name }) ≡ true
          → contains taken name ≡ true)
      → (path : FilePath) × (choose src snk num parts fs (suc (suc (length taken))) d ≡ some path)
  unfolding choose
  choose_total fs d taken h =
      let (r, found, _, _, _) = nonexisting_file_total num parts fs.exists d.destination taken h in
      if_elim (λ c. (path : FilePath) × (c ≡ some path)) (fs.exists d.destination) (λ _. (r, found))
        (λ _. (d.destination, refl))

  returns :
      (fs : Files snk.State) (d : DownloadJob src snk) (fuel : ℕ) (path : FilePath)
      → choose src snk num parts fs fuel d ≡ some path
      → (e : DownloadJob src snk) × (do_start src snk num parts fs fuel d ≡ some e)
  unfolding do_start
  returns fs d fuel path h =
      if_elim (λ m. (e : DownloadJob src snk) × (m ≡ some e)) (not (fs.make_path d.destination.dir))
        (λ _. (_, refl)) (λ _. (_, ap (open_at src snk num parts fs d) h))

  -- A start never touches a file that is there already. If the names taken in the directory are
  -- all in the list `taken`, two more rounds than it has entries are enough fuel, and the start
  -- returns a job with the same directory that has removed nothing; and either it wrote to no file,
  -- or it opened for writing the one path that it now has, which did not exist.
  pub do_start-WritesFresh :
      (fs : Files snk.State) (d : DownloadJob src snk) (taken : List String)
      → ((name : String)
          → fs.exists (record { dir = d.destination.dir; name = name }) ≡ true
          → contains taken name ≡ true)
      → (e : DownloadJob src snk) × (do_start src snk num parts fs (suc (suc (length taken))) d
          ≡ some e)
        × WritesFresh fs d e
  do_start-WritesFresh fs d taken h =
      let (path, chosen) = choose_total fs d taken h in
      let (e, done) = returns fs d (suc (suc (length taken))) path chosen in
      (e, done, some_start-WritesFresh fs (suc (suc (length taken))) d e done)

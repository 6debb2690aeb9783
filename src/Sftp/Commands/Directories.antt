-- ===== src/Sftp/Commands/Directories.antt =====
-- Reading a directory by chunks in plugins/sftpserver/sftpservercommands.cpp.
use mathlib.Core.List.{map-append}
use harbour_sailfishconnect.Base.{
  ℕ, zero, suc, ◌<◌, ◌≡◌, refl, ap, ◌∙◌, sym, Option, none, some, List, [], ◌∷◌, ◌++◌, map, String,
  arith, length, take, drop, length-drop, take-append-drop, nat_eq, eqb, if◌then◌else◌,
}
use harbour_sailfishconnect.Base.Dict.{lookup, lookup-insert_self}
use harbour_sailfishconnect.Sftp.Types.{FileInfo, Files, Message, Entry, Reply, names}
use harbour_sailfishconnect.Sftp.Commands.{
  Session, read_dir_chunk_size, dir_entry, read_entries, reply_read_dir,
}

-- The entries of one reply.
abbrev pub entries_of : Reply → List Entry
entries_of (names es) = es
entries_of _ = []

abbrev pub last_entries : List Reply → List Entry
last_entries [] = []
last_entries (r ∷ rs) = entries_of r

append_entries : List Entry → Option (List Entry) → Option (List Entry)
append_entries es none = none
append_entries es (some more) = some (es ++ more)

module _ {W F : Type 0} (fs : Files W F) (m : Message) where
  -- A client that reads until the reply is no list of names; `none` means that it gave up.
  pub read_all : ℕ → Session W F → Option (List Entry)
  read_all zero s = none
  read_all (suc rounds) s =
      let t = reply_read_dir fs m s in
      let rest = read_all rounds t in
      if eqb (length (last_entries t.replies)) 0
      then some []
      else append_entries (last_entries t.replies) rest

  read_dir_open :
      (s : Session W F) (left : List (String × FileInfo))
      → lookup m.handle s.dirs ≡ some left
      → reply_read_dir fs m s ≡ read_entries fs m.handle left s
  unfolding reply_read_dir
  read_dir_open s left e = rw (e, reply_read_dir)

  end_replies : (s : Session W F) → last_entries (read_entries fs m.handle [] s).replies ≡ []
  unfolding read_entries
  end_replies s = refl

  next_replies :
      (s : Session W F) (x : String × FileInfo) (xs : List (String × FileInfo))
      → last_entries (read_entries fs m.handle (x ∷ xs) s).replies
        ≡ map (dir_entry fs) (take read_dir_chunk_size (x ∷ xs))
  unfolding read_entries
  next_replies s x xs = ground arith

  next_dirs :
      (s : Session W F) (x : String × FileInfo) (xs : List (String × FileInfo))
      → lookup m.handle (read_entries fs m.handle (x ∷ xs) s).dirs
        ≡ some (drop read_dir_chunk_size (x ∷ xs))
  unfolding read_entries
  next_dirs s x xs =
      ground (arith, lookup-insert_self m.handle (drop read_dir_chunk_size (x ∷ xs)) s.dirs)

  chunk-append :
      (n : ℕ) (left : List (String × FileInfo))
      → map (dir_entry fs) (take n left) ++ map (dir_entry fs) (drop n left)
        ≡ map (dir_entry fs) left
  chunk-append n left =
      sym (map-append (dir_entry fs) (take n left) (drop n left))
      ∙ ap (map (dir_entry fs)) (take-append-drop n left)

  -- A client that asks again and again gets every entry of the directory once, in its order,
  -- with no more than one question for each entry and one for the end.
  pub read_all_entries :
      (rounds : ℕ) (s : Session W F) (left : List (String × FileInfo))
      → lookup m.handle s.dirs ≡ some left
      → length left < rounds
      → read_all rounds s ≡ some (map (dir_entry fs) left)
  unfolding read_all append_entries
  read_all_entries zero s left e lt = elim lt [ ]
  read_all_entries (suc rounds) s [] e lt = rw (read_dir_open s [] e, end_replies s)
  read_all_entries (suc rounds) s (x ∷ xs) e lt =
      let again =
        read_all_entries rounds (read_entries fs m.handle (x ∷ xs) s)
          (drop read_dir_chunk_size (x ∷ xs)) (next_dirs s x xs)
          (omega (arith, length-drop read_dir_chunk_size (x ∷ xs))) in
      rw (read_dir_open s (x ∷ xs) e, next_replies s x xs, again)
        (ground (arith, chunk-append read_dir_chunk_size (x ∷ xs)))

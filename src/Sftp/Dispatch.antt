-- ===== src/Sftp/Dispatch.antt =====
-- SftpServerSession of plugins/sftpserver/sftpservercommands.cpp: the methods that change the
-- file system, and readMessage(), which chooses the method.
pub mod Replies
pub mod Handles
pub mod Writing
pub mod Links
use harbour_sailfishconnect.Base.{
  ℕ, zero, suc, Bool, true, false, ◌&&◌, not, Option, none, some, List, [], ◌∷◌, length, drop, eqb,
  if◌then◌else◌, nat_eq,
}
use harbour_sailfishconnect.Base.Dict.{lookup}
use harbour_sailfishconnect.Sftp.Types.{
  FileInfo, Files, ok, no_such_file, failure, op_unsupported, invalid_handle, file_already_exists,
  status, Message, MessageType,
}
use harbour_sailfishconnect.Sftp.Commands.{
  Session, reply, get_filename, reply_read_link, reply_real_path, reply_stat, reply_open_dir,
  reply_read_dir, reply_close, reply_open_file, keep, read_from,
}

module _ {W F : Type 0} (fs : Files W F) where
  -- `while (size > 0)`: true is the end of the loop, false a write error, and `none` means that
  -- the fuel ran out.
  unfoldable pub write_loop : ℕ → List ℕ → F → Option (Bool × F)
  write_loop zero left f = none
  write_loop (suc fuel) left f = elim (eqb (length left) 0) [
    | true ↦ some (true, f)
    | false ↦
        let (r, g) = fs.write left f in
        elim r [ none ↦ some (false, g) | some n ↦ write_loop fuel (drop n left) g ]
  ]

  unfoldable pub written : Message → Session W F → Option (Bool × F) → Option (Session W F)
  unfolding reply keep
  written m s none = none
  written m s (some (true, f)) = some (reply fs (status ok) (keep fs m.handle f s))
  written m s (some (false, f)) = some (reply fs (status failure) (keep fs m.handle f s))

  unfoldable pub write_to : ℕ → Message → F → Session W F → Option (Session W F)
  unfolding write_loop written
  write_to fuel m file s =
      let (found, f) = fs.seek m.offset file in
      if not found
      then some (reply fs (status failure) (keep fs m.handle f s))
      else written m s (write_loop fuel m.payload f)

  unfoldable pub reply_write_file : ℕ → Message → Session W F → Option (Session W F)
  unfolding write_to
  reply_write_file fuel m s = elim (lookup m.handle s.files) [
    | none ↦ some (reply fs (status invalid_handle) s)
    | some file ↦ write_to fuel m file s
  ]

  unfoldable pub reply_read_file : Message → Session W F → Session W F
  unfolding read_from reply
  reply_read_file m s = elim (lookup m.handle s.files) [
    | none ↦ reply fs (status invalid_handle) s
    | some file ↦ read_from fs m file s
  ]

  -- The reply to a call of the file system that succeeds or fails.
  unfoldable pub done : Bool × W → Session W F → Session W F
  unfolding reply
  done (success, w) s =
      if success
      then reply fs (status ok) (record s { world = w })
      else reply fs (status failure) (record s { world = w })

  unfoldable pub reply_remove : Message → Session W F → Session W F
  unfolding done get_filename
  reply_remove m s = done (fs.remove (get_filename fs s m.filename) s.world) s

  -- The result of mkdir; the test dir.exists() comes after it.
  -- QDir::exists(): there is something, and it is a directory.
  unfoldable pub dir_exists : FileInfo → Bool
  dir_exists i = i.exists && i.is_dir

  unfoldable pub dir_made : Message → Bool × W → Session W F → Session W F
  unfolding reply get_filename dir_exists
  dir_made m (success, w) s =
      if success
      then reply fs (status ok) (record s { world = w })
      else if dir_exists (fs.info w (get_filename fs s m.filename))
      then reply fs (status file_already_exists) (record s { world = w })
      else reply fs (status failure) (record s { world = w })

  unfoldable pub reply_make_dir : Message → Session W F → Session W F
  unfolding dir_made get_filename
  reply_make_dir m s = dir_made m (fs.make_dir (get_filename fs s m.filename) s.world) s

  unfoldable pub reply_remove_dir : Message → Session W F → Session W F
  unfolding done get_filename
  reply_remove_dir m s = done (fs.remove_dir (get_filename fs s m.filename) s.world) s

  -- The target is out of the way: rename.
  unfoldable pub rename_to : Message → Bool × W → Session W F → Session W F
  unfolding done get_filename reply
  rename_to m (cleared, w) s =
      if cleared
      then done (fs.rename (get_filename fs s m.filename) (get_filename fs s m.target) w)
          (record s { world = w })
      else reply fs (status failure) (record s { world = w })

  unfoldable pub reply_rename : Message → Session W F → Session W F
  unfolding rename_to get_filename reply
  reply_rename m s =
      let source = fs.info s.world (get_filename fs s m.filename) in
      let target = fs.info s.world (get_filename fs s m.target) in
      if not source.exists && not source.is_sym_link
      then reply fs (status no_such_file) s
      else rename_to m
          (if target.exists
            then fs.remove (get_filename fs s m.target) s.world
            else (true, s.world))
          s

  unfoldable pub reply_symlink : Message → Session W F → Session W F
  unfolding done get_filename
  reply_symlink m s =
      done (fs.link (get_filename fs s m.filename) (get_filename fs s m.target) s.world) s

  -- readMessage() with a message. `none` means that the loop of a write ran out of fuel.
  unfoldable pub dispatch :
      Bool → ℕ → ℕ → MessageType → Message → Session W F → Option (Session W F)
  unfolding reply_read_link reply_real_path reply_stat reply_open_dir reply_read_dir reply_open_file
      reply_read_file reply_write_file reply_close reply_remove reply_make_dir reply_remove_dir
      reply_rename reply_symlink reply
  dispatch qt fresh fuel MessageType.readlink m s = some (reply_read_link fs m s)
  dispatch qt fresh fuel MessageType.realpath m s = some (reply_real_path fs m s)
  dispatch qt fresh fuel MessageType.stat m s = some (reply_stat fs false m s)
  dispatch qt fresh fuel MessageType.lstat m s = some (reply_stat fs true m s)
  dispatch qt fresh fuel MessageType.opendir m s = some (reply_open_dir fs fresh m s)
  dispatch qt fresh fuel MessageType.readdir m s = some (reply_read_dir fs m s)
  dispatch qt fresh fuel MessageType.open_ m s = some (reply_open_file fs qt fresh m s)
  dispatch qt fresh fuel MessageType.read m s = some (reply_read_file m s)
  dispatch qt fresh fuel MessageType.write m s = reply_write_file fuel m s
  dispatch qt fresh fuel MessageType.close m s = some (reply_close fs m s)
  dispatch qt fresh fuel MessageType.remove m s = some (reply_remove m s)
  dispatch qt fresh fuel MessageType.mkdir m s = some (reply_make_dir m s)
  dispatch qt fresh fuel MessageType.rmdir m s = some (reply_remove_dir m s)
  dispatch qt fresh fuel MessageType.rename m s = some (reply_rename m s)
  dispatch qt fresh fuel MessageType.symlink m s = some (reply_symlink m s)
  dispatch qt fresh fuel _ m s = some (reply fs (status op_unsupported) s)

  unfoldable pub read_message : Bool → ℕ → ℕ → Message → Session W F → Option (Session W F)
  unfolding dispatch
  read_message qt_5_11 fresh fuel m s = dispatch qt_5_11 fresh fuel m.type m s

-- ===== src/Sftp/Dispatch/Replies.antt =====
-- One reply to each message: plugins/sftpserver/sftpservercommands.cpp, readMessage().
use harbour_sailfishconnect.Base.{
  ℕ, ◌+◌, ◌<◌, ◌∙◌, nat_eq, length, ◌≡◌, refl, Bool, true, false, not, Option, none, some, arith,
  if_elim, ap, subst, drop, Option-cases, inl, inr,
}
use harbour_sailfishconnect.Base.Dict.{lookup}
use harbour_sailfishconnect.Sftp.Dispatch.Writing.{Writes, write_loop-Ends, written_lem}
use harbour_sailfishconnect.Sftp.Types.{Files, Message, MessageType, status, invalid_handle}
use harbour_sailfishconnect.Sftp.Commands.{
  Session, reply, reply_read_link, reply_real_path, reply_stat, reply_open_dir, reply_read_dir,
  reply_close, reply_open_file, read_from,
}
use harbour_sailfishconnect.Sftp.Dispatch.{
  written, write_to, reply_write_file, reply_read_file, done, dir_made, rename_to, reply_rename,
  dispatch, read_message,
}

module _ {W F : Type 0} (fs : Files W F) where
  -- The session has answered once more than before.
  abbrev pub AnswersOnce : Session W F → Session W F → Type 0
  AnswersOnce s t = (drop 1 t.replies ≡ s.replies) × (length t.replies ≡ length s.replies + 1)

  abbrev AnswersOnce? : Session W F → Option (Session W F) → Type 0
  AnswersOnce? s none = Unit
  AnswersOnce? s (some t) = AnswersOnce s t

  module _ (m : Message) (s : Session W F) where
    read_link_once : AnswersOnce s (reply_read_link fs m s)
    unfolding reply_read_link
    read_link_once = ground arith

    real_path_once : AnswersOnce s (reply_real_path fs m s)
    unfolding reply_real_path
    real_path_once = ground arith

    stat_once : (follow : Bool) → AnswersOnce s (reply_stat fs follow m s)
    unfolding reply_stat
    stat_once follow = ground arith

    open_dir_once : (fresh : ℕ) → AnswersOnce s (reply_open_dir fs fresh m s)
    unfolding reply_open_dir
    open_dir_once fresh = ground arith

    read_dir_once : AnswersOnce s (reply_read_dir fs m s)
    unfolding reply_read_dir
    read_dir_once = ground arith

    close_once : AnswersOnce s (reply_close fs m s)
    unfolding reply_close
    close_once = ground arith

    open_file_once : (qt : Bool) (fresh : ℕ) → AnswersOnce s (reply_open_file fs qt fresh m s)
    unfolding reply_open_file
    open_file_once qt fresh = ground arith

    read_from_once : (f : F) → AnswersOnce s (read_from fs m f s)
    unfolding read_from
    read_from_once f = ground arith

    read_file_once : AnswersOnce s (reply_read_file fs m s)
    unfolding reply_read_file
    read_file_once = ground arith

    write_to_once : (fuel : ℕ) (f : F) → AnswersOnce? s (write_to fs fuel m f s)
    unfolding write_to
    write_to_once fuel f = ground arith

    write_file_once : (fuel : ℕ) → AnswersOnce? s (reply_write_file fs fuel m s)
    unfolding reply_write_file
    write_file_once fuel = ground arith

    done_once : (r : Bool × W) → AnswersOnce s (done fs r s)
    unfolding done
    done_once r = ground arith

    dir_made_once : (r : Bool × W) → AnswersOnce s (dir_made fs m r s)
    unfolding dir_made
    dir_made_once r = ground arith

    rename_to_once : (r : Bool × W) → AnswersOnce s (rename_to fs m r s)
    unfolding rename_to
    rename_to_once r = ground arith

    rename_once : AnswersOnce s (reply_rename fs m s)
    unfolding reply_rename
    rename_once = ground arith

module _ {W F : Type 0} (fs : Files W F) (laws : Writes fs) where
  write_to-some :
      (fuel : ℕ) (m : Message) (file : F) (s : Session W F)
      → length m.payload < fuel
      → (t : Session W F) × (write_to fs fuel m file s ≡ some t)
  unfolding write_to
  write_to-some fuel m file s lt =
      let f = (fs.seek m.offset file).1 in
      let (b, g, ended, _) = write_loop-Ends fs laws fuel m.payload f lt in
      if_elim (λ o. (t : Session W F) × (o ≡ some t)) (not (fs.seek m.offset file).0)
        (λ _. (_, refl)) (λ _. (_, ap (written fs m s) ended ∙ written_lem fs m s b g))

  write_file_some :
      (fuel : ℕ) (m : Message) (s : Session W F)
      → length m.payload < fuel
      → (t : Session W F) × (reply_write_file fs fuel m s ≡ some t)
  unfolding reply_write_file
  write_file_some fuel m s lt = elim (Option-cases (lookup m.handle s.files)) [
    | inl e ↦ (reply fs (status invalid_handle) s, rw (e, reply_write_file))
    | inr (file, e) ↦ rw (e, reply_write_file) (write_to-some fuel m file s lt)
  ]

  once :
      (s t : Session W F) (o : Option (Session W F))
      → o ≡ some t
      → AnswersOnce? fs s o
      → AnswersOnce fs s t
  once s t o e h = subst (AnswersOnce? fs s) e h

  dispatch_once :
      (qt : Bool) (fresh fuel : ℕ) (type : MessageType) (m : Message) (s : Session W F)
      → length m.payload < fuel
      → (t : Session W F) × (dispatch fs qt fresh fuel type m s ≡ some t) × AnswersOnce fs s t
  unfolding dispatch
  dispatch_once qt fresh fuel MessageType.readlink m s lt = (_, refl, read_link_once fs m s)
  dispatch_once qt fresh fuel MessageType.realpath m s lt = (_, refl, real_path_once fs m s)
  dispatch_once qt fresh fuel MessageType.stat m s lt = (_, refl, stat_once fs m s false)
  dispatch_once qt fresh fuel MessageType.lstat m s lt = (_, refl, stat_once fs m s true)
  dispatch_once qt fresh fuel MessageType.opendir m s lt = (_, refl, open_dir_once fs m s fresh)
  dispatch_once qt fresh fuel MessageType.readdir m s lt = (_, refl, read_dir_once fs m s)
  dispatch_once qt fresh fuel MessageType.open_ m s lt = (_, refl, open_file_once fs m s qt fresh)
  dispatch_once qt fresh fuel MessageType.read m s lt = (_, refl, read_file_once fs m s)
  dispatch_once qt fresh fuel MessageType.write m s lt =
      let (t, e) = write_file_some fuel m s lt in (t, e, once s t _ e (write_file_once fs m s fuel))
  dispatch_once qt fresh fuel MessageType.close m s lt = (_, refl, close_once fs m s)
  dispatch_once qt fresh fuel MessageType.remove m s lt = (_, refl, done_once fs m s _)
  dispatch_once qt fresh fuel MessageType.mkdir m s lt = (_, refl, dir_made_once fs m s _)
  dispatch_once qt fresh fuel MessageType.rmdir m s lt = (_, refl, done_once fs m s _)
  dispatch_once qt fresh fuel MessageType.rename m s lt = (_, refl, rename_once fs m s)
  dispatch_once qt fresh fuel MessageType.symlink m s lt = (_, refl, done_once fs m s _)
  dispatch_once qt fresh fuel _ m s lt = (_, refl, (refl, omega arith))

  -- Every message is answered, and answered once. With files that accept a part of what they are
  -- given, and one round of fuel more than the message has bytes, a message of any type is handled
  -- to its end, and exactly one reply is added to those sent before.
  pub read_message_once :
      (qt_5_11 : Bool) (fresh fuel : ℕ) (m : Message) (s : Session W F)
      → length m.payload < fuel
      → (t : Session W F) × (read_message fs qt_5_11 fresh fuel m s ≡ some t) × AnswersOnce fs s t
  unfolding read_message
  read_message_once qt fresh fuel m s lt = dispatch_once qt fresh fuel m.type m s lt

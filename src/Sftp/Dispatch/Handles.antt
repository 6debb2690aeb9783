-- ===== src/Sftp/Dispatch/Handles.antt =====
-- The life of a handle in plugins/sftpserver/sftpservercommands.cpp.
use harbour_sailfishconnect.Base.{ℕ, ◌≡◌, ◌≢◌, none, ◌∷◌, arith, nat_eq, if◌then◌else◌, ◌||◌}
use harbour_sailfishconnect.Base.Dict.{lookup, lookup-erase, has_key}
use harbour_sailfishconnect.Sftp.Types.{Files, Message, ok, invalid_handle, status}
use harbour_sailfishconnect.Sftp.Commands.{Session, reply_close}

module _ {W F : Type 0} (fs : Files W F) where
  -- The handle names no open file and no open directory.
  pub record Closed (h : ℕ) (s : Session W F) : Type 0 where
    pub no_file : lookup h s.files ≡ none
    pub no_dir : lookup h s.dirs ≡ none

  -- The handle names at most one of the two.
  abbrev pub OneKind : ℕ → Session W F → Type 0
  OneKind h s = lookup h s.files ≢ none → lookup h s.dirs ≡ none

  -- For a handle that names at most one of a file and a directory: a close answers OK exactly if
  -- the handle is open, and INVALID_HANDLE otherwise; the handle is closed afterwards, and every
  -- other handle names what it named before.
  pub close_lem :
      (m : Message) (s : Session W F)
      → OneKind m.handle s
      → ((reply_close fs m s).replies
          ≡ status
              (if has_key m.handle s.files || has_key m.handle s.dirs then ok else invalid_handle)
            ∷ s.replies)
        × Closed m.handle (reply_close fs m s)
        × ((h : ℕ)
            → h ≢ m.handle
            → (lookup h (reply_close fs m s).files ≡ lookup h s.files)
              × (lookup h (reply_close fs m s).dirs ≡ lookup h s.dirs))
  unfolding reply_close
  close_lem m s one = (
    ground arith,
    ground (arith, lookup-erase m.handle m.handle s.files, lookup-erase m.handle m.handle s.dirs),
    λ h ne. ground (arith, lookup-erase h m.handle s.files, lookup-erase h m.handle s.dirs),
  )

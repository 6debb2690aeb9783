-- ===== src/Sftp/Dispatch/Links.antt =====
-- STAT and LSTAT in plugins/sftpserver/sftpservercommands.cpp.
use harbour_sailfishconnect.Base.{
  ℕ, ◌≡◌, Bool, true, false, arith, ap, sym, ◌∙◌, some, if◌then◌else◌,
}
use harbour_sailfishconnect.Sftp.Types.{
  FileInfo, Files, Message, MessageType, Reply, status, op_unsupported, no_such_file,
}
use harbour_sailfishconnect.Sftp.Attributes.{get_file_attrs}
use harbour_sailfishconnect.Sftp.Commands.{Session, reply, get_filename, reply_stat}
use harbour_sailfishconnect.Sftp.Dispatch.{dispatch}

module _ {W F : Type 0} (fs : Files W F) (m : Message) (s : Session W F) where
  abbrev asked : FileInfo
  asked = fs.info s.world (get_filename fs s m.filename)

  stat_link :
      asked.is_sym_link ≡ true → reply_stat fs false m s ≡ reply fs (status op_unsupported) s
  unfolding reply_stat
  stat_link h = rw (h, reply_stat)

  lstat_link :
      asked.is_sym_link ≡ true
      → reply_stat fs true m s
        ≡ reply fs (Reply.attributes (get_file_attrs (fs.info s.world asked.sym_link_target))) s
  unfolding reply_stat
  lstat_link h = rw (h, reply_stat)

  stat_plain :
      (follow : Bool)
      → asked.is_sym_link ≡ false
      → reply_stat fs follow m s
        ≡ reply fs
            (if asked.exists then Reply.attributes (get_file_attrs asked) else status no_such_file)
            s
  unfolding reply_stat
  stat_plain follow h = ground arith

  module _ (qt : Bool) (fresh fuel : ℕ) where
    -- STAT and LSTAT are the wrong way round. If the file that is asked for is a symbolic link,
    -- then STAT is refused as not supported, and LSTAT answers with the attributes of the file
    -- that the link points to. If it is none, both answer with its attributes, or with
    -- NO_SUCH_FILE.
    pub stat_swapped :
        (asked.is_sym_link ≡ true
          → (dispatch fs qt fresh fuel MessageType.stat m s
              ≡ some (reply fs (status op_unsupported) s))
            × (dispatch fs qt fresh fuel MessageType.lstat m s
                ≡ some (
                    reply fs
                      (Reply.attributes (get_file_attrs (fs.info s.world asked.sym_link_target)))
                      s)))
        × (asked.is_sym_link ≡ false
            → (dispatch fs qt fresh fuel MessageType.stat m s
                ≡ dispatch fs qt fresh fuel MessageType.lstat m s)
              × (dispatch fs qt fresh fuel MessageType.stat m s
                  ≡ some (
                      reply fs
                        (if asked.exists
                          then Reply.attributes (get_file_attrs asked)
                          else status no_such_file)
                        s)))
    unfolding dispatch
    stat_swapped = (
      λ h. (ap some (stat_link h), ap some (lstat_link h)),
      λ h. (ap some (stat_plain false h ∙ sym (stat_plain true h)), ap some (stat_plain false h)),
    )

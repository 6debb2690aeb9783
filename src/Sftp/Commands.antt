-- ===== src/Sftp/Commands.antt =====
-- SftpServerSession of plugins/sftpserver/sftpservercommands.cpp: one function for each reply*
-- method. Every call of sftp_reply_* adds to `replies`, the latest first. A new handle is the
-- address of the object that is made, which the allocator chooses: an argument.
pub mod Directories
use harbour_sailfishconnect.Base.{
  ℕ, zero, suc, ◌/◌, ◌%◌, min, String, Bool, true, false, ◌&&◌, ◌||◌, not, Option, none, some, List,
  [], ◌∷◌, map, length, take, drop, eqb, if◌then◌else◌, ◌==◌, nat_eq, string_eq, is_some,
}
use harbour_sailfishconnect.Base.Dict.{Dict, lookup, insert, erase, has_key}
use harbour_sailfishconnect.Sftp.Types.{
  FileInfo, OpenMode, Files, Status, ok, eof, no_such_file, permission_denied, failure,
  op_unsupported, invalid_handle, file_already_exists, not_a_directory, invalid_filename, Entry,
  Reply, status, names, bytes, Message, MessageType,
}
use harbour_sailfishconnect.Sftp.Attributes.{has_bit, create_long_name, get_file_attrs}

abbrev pub read_dir_chunk_size : ℕ
read_dir_chunk_size = 100

-- 65536U * 128
abbrev pub max_read : ℕ
max_read = 8388608

pub record Session (W F : Type 0) : Type 0 where
  pub world : W
  pub cwd : String
  -- what each QDirIterator has not returned yet
  pub dirs : Dict ℕ (List (String × FileInfo))
  pub files : Dict ℕ F
  pub replies : List Reply

module _ {W F : Type 0} (fs : Files W F) where
  unfoldable pub reply : Reply → Session W F → Session W F
  reply r s = record s { replies = r ∷ s.replies }

  unfoldable pub get_filename : Session W F → String → String
  get_filename s raw =
      if raw == ""
      then fs.home_path
      else if fs.is_relative raw
      then fs.absolute_path s.cwd raw
      else raw

  -- A reply with one name and no attributes.
  unfoldable pub reply_path : String → Session W F → Session W F
  unfolding reply
  reply_path path =
      reply (names (record { filename = path; long_name = path; attributes = none } ∷ []))

  unfoldable pub reply_read_link : Message → Session W F → Session W F
  unfolding get_filename reply reply_path
  reply_read_link m s =
      let filename = get_filename s m.filename in
      let target = (fs.info s.world filename).sym_link_target in
      if filename == ""
      then reply (status invalid_filename) s
      else if target == ""
      then reply (status no_such_file) s
      else reply_path target s

  unfoldable pub reply_real_path : Message → Session W F → Session W F
  unfolding get_filename reply reply_path
  reply_real_path m s =
      let given = get_filename s m.filename in
      let filename = if given == "" then s.cwd else given in
      let real_path = (fs.info s.world filename).canonical_path in
      if real_path == "" then reply (status no_such_file) s else reply_path real_path s

  unfoldable pub reply_stat : Bool → Message → Session W F → Session W F
  unfolding get_filename reply
  reply_stat follow m s =
      let info = fs.info s.world (get_filename s m.filename) in
      if not info.is_sym_link && not info.exists
      then reply (status no_such_file) s
      else if not follow && info.is_sym_link
      then reply (status op_unsupported) s
      else reply
          (Reply.attributes (
            get_file_attrs
              (if info.is_sym_link then fs.info s.world info.sym_link_target else info)))
          s

  unfoldable pub reply_open_dir : ℕ → Message → Session W F → Session W F
  unfolding get_filename reply
  reply_open_dir fresh m s =
      let filename = get_filename s m.filename in
      let info = fs.info s.world filename in
      if filename == ""
      then reply (status invalid_filename) s
      else if not info.exists
      then reply (status no_such_file) s
      else if not info.is_dir
      then reply (status not_a_directory) s
      else if not info.is_readable
      then reply (status permission_denied) s
      else reply (Reply.handle fresh)
          (record s { dirs = insert fresh (fs.entries s.world filename) s.dirs })

  unfoldable pub dir_entry : String × FileInfo → Entry
  unfolding create_long_name get_file_attrs
  dir_entry (name, info) = record {
    filename = name;
    long_name = create_long_name fs info name;
    attributes = some (get_file_attrs info);
  }

  -- The loop takes up to a chunk of entries from the iterator `h`, which has `left` before it.
  unfoldable pub read_entries : ℕ → List (String × FileInfo) → Session W F → Session W F
  unfolding reply
  read_entries h left s =
      if eqb (length (take read_dir_chunk_size left)) 0
      then reply (status eof) s
      else reply (names (map dir_entry (take read_dir_chunk_size left)))
          (record s { dirs = insert h (drop read_dir_chunk_size left) s.dirs })

  unfoldable pub reply_read_dir : Message → Session W F → Session W F
  unfolding reply read_entries
  reply_read_dir m s = elim (lookup m.handle s.dirs) [
    | none ↦ reply (status invalid_handle) s
    | some left ↦ read_entries m.handle left s
  ]

  -- `||` erases from the second table only if the first had no such key.
  unfoldable pub reply_close : Message → Session W F → Session W F
  unfolding reply
  reply_close m s =
      if has_key m.handle s.files
      then reply (status ok) (record s { files = erase m.handle s.files })
      else if has_key m.handle s.dirs
      then reply (status ok) (record s { dirs = erase m.handle s.dirs })
      else reply (status invalid_handle) s

  -- SSH_FXF_READ 1, WRITE 2, APPEND 4, CREAT 8, TRUNC 16, EXCL 32, TEXT 64. The last two fields
  -- are set from Qt 5.11 on.
  unfoldable pub open_mode : Bool → ℕ → OpenMode
  unfolding has_bit
  open_mode qt_5_11 flags = record {
    read_only = has_bit flags 1;
    write_only = has_bit flags 2;
    append = has_bit flags 4;
    truncate = has_bit flags 16;
    text = has_bit flags 64;
    new_only = qt_5_11 && (has_bit flags 8 && has_bit flags 32);
    existing_only = qt_5_11 && not (has_bit flags 8);
  }

  unfoldable pub opened : Option F → ℕ → Session W F → Session W F
  unfolding reply
  opened none fresh s = reply (status failure) s
  opened (some f) fresh s = reply (Reply.handle fresh) (record s { files = insert fresh f s.files })

  unfoldable pub reply_open_file : Bool → ℕ → Message → Session W F → Session W F
  unfolding get_filename open_mode opened
  reply_open_file qt_5_11 fresh m s =
      let (r, w) = fs.open_file (open_mode qt_5_11 m.flags) (get_filename s m.filename) s.world in
      opened r fresh (record s { world = w })

  -- What is done with a file stays with it: the table holds the file, not a copy.
  unfoldable pub keep : ℕ → F → Session W F → Session W F
  keep h f s = record s { files = insert h f s.files }

  unfoldable pub read_result : ℕ → Option (List ℕ) → Session W F → Session W F
  unfolding reply
  read_result size none s = reply (status failure) s
  read_result size (some data_read) s =
      if eqb (length data_read) 0 && not (eqb size 0)
      then reply (status eof) s
      else reply (bytes data_read) s

  unfoldable pub read_from : Message → F → Session W F → Session W F
  unfolding reply keep read_result
  read_from m file s =
      let size = min m.len max_read in
      let (found, f) = fs.seek m.offset file in
      if not found
      then reply (status failure) (keep m.handle f s)
      else let (r, g) = fs.read size f in read_result size r (keep m.handle g s)

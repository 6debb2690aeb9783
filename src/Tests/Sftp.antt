-- ===== src/Tests/Sftp.antt =====
-- A session over a file system with one file and one directory.
use harbour_sailfishconnect.Base.{
  ℕ, ◌≤◌, ◌<◌, ◌≡◌, refl, ◌≢◌, Bool, true, false, ◌||◌, none, some, List, [], ◌∷◌, ◌++◌, length,
  take, map, arith, if◌then◌else◌, nat_eq, string_eq, ◌==◌,
}
use harbour_sailfishconnect.Base.Dict.{lookup, has_key}
use harbour_sailfishconnect.Sftp.Types.{
  FileInfo, Files, ok, failure, op_unsupported, no_such_file, invalid_handle, Reply, status,
  Message, MessageType,
}
use harbour_sailfishconnect.Sftp.Attributes.{get_file_attrs, has_bit, to_unix_permissions}
use harbour_sailfishconnect.Sftp.Commands.{
  Session, reply, keep, dir_entry, get_filename, reply_close,
}
use harbour_sailfishconnect.Sftp.Commands.Directories.{read_all, read_all_entries}
use harbour_sailfishconnect.Sftp.Attributes.Permissions.{to_unix_permissions_merges}
use harbour_sailfishconnect.Sftp.Dispatch.{dispatch, read_message, reply_write_file}
use harbour_sailfishconnect.Sftp.Dispatch.Writing.{Writes, write_file_total}
use harbour_sailfishconnect.Sftp.Dispatch.Replies.{AnswersOnce, read_message_once}
use harbour_sailfishconnect.Sftp.Dispatch.Handles.{Closed, close_lem}
use harbour_sailfishconnect.Sftp.Dispatch.Links.{stat_swapped}

abbrev plain : FileInfo
plain = record {
  exists = true;
  is_dir = false;
  is_file = true;
  is_sym_link = false;
  is_readable = true;
  size = 3;
  owner_id = 0;
  group_id = 0;
  permissions = 26180;
  last_read = 0;
  last_modified = 0;
  modified_text = "";
  sym_link_target = "";
  canonical_path = "/a";
}

abbrev linked : FileInfo
linked = record plain { is_sym_link = true; sym_link_target = "/a" }

-- Files take two bytes at a time.
abbrev drive : Files ℕ (List ℕ)
drive = record {
  home_path = "/";
  is_relative = λ p. false;
  absolute_path = λ d p. p;
  print = λ n. "";
  info = λ w p. if p == "/l" then linked else plain;
  entries = λ w p. ("a", plain) ∷ [];
  open_file = λ m p w. (some [], w);
  seek = λ n f. (true, f);
  read = λ n f. (some (take n f), f);
  write = λ bytes f. (some (length (take 2 bytes)), f ++ take 2 bytes);
  remove = λ p w. (true, w);
  make_dir = λ p w. (true, w);
  remove_dir = λ p w. (true, w);
  rename = λ p q w. (true, w);
  link = λ p q w. (true, w);
}

take_two : (bytes : List ℕ) → take (length (take 2 bytes)) bytes ≡ take 2 bytes
take_two [] = refl
take_two (x ∷ []) = refl
take_two (x ∷ y ∷ bytes) = refl

two_fit : (bytes : List ℕ) → length (take 2 bytes) ≤ length bytes
two_fit [] = omega arith
two_fit (x ∷ []) = omega arith
two_fit (x ∷ y ∷ bytes) = omega arith

two_some : (bytes : List ℕ) → 0 < length bytes → 0 < length (take 2 bytes)
two_some [] h = h
two_some (x ∷ []) h = omega arith
two_some (x ∷ y ∷ bytes) h = omega arith

drive-Writes : Writes drive
drive-Writes = record {
  history = λ f. f;
  accepts = λ left f g n e.
      (ground (arith, two_fit left), ground (arith, two_some left), ground (arith, take_two left));
}

abbrev session : Session ℕ (List ℕ)
session = record {
  world = 0;
  cwd = "/";
  dirs = (7, ("a", plain) ∷ ("b", linked) ∷ []) ∷ [];
  files = (5, 9 ∷ []) ∷ [];
  replies = [];
}

abbrev message : MessageType → ℕ → Message
message type handle = record {
  type = type;
  filename = "/l";
  target = "";
  handle = handle;
  flags = 0;
  offset = 0;
  len = 0;
  payload = 1 ∷ 2 ∷ 3 ∷ [];
}

read_message_once_example :
    (t : Session ℕ (List ℕ)) × (read_message drive true 11 4 (message MessageType.write 5) session
      ≡ some t)
    × AnswersOnce drive session t
read_message_once_example =
    read_message_once drive drive-Writes true 11 4 (message MessageType.write 5) session
      (omega arith)

file_there : lookup 5 session.files ≡ some (9 ∷ [])
unfolding lookup
file_there = refl

dir_there : lookup 7 session.dirs ≡ some (("a", plain) ∷ ("b", linked) ∷ [])
unfolding lookup
dir_there = refl

write_file_total_example :
    (b : Bool) × (g : List ℕ) × (reply_write_file drive 4 (message MessageType.write 5) session
      ≡ some (reply drive (status (if b then ok else failure)) (keep drive 5 g session)))
    × (b ≡ true → drive-Writes.history g ≡ drive-Writes.history (9 ∷ []) ++ 1 ∷ 2 ∷ 3 ∷ [])
write_file_total_example =
    write_file_total drive drive-Writes 4 (message MessageType.write 5) session (9 ∷ []) (9 ∷ [])
      file_there refl (omega arith)

read_all_entries_example :
    read_all drive (message MessageType.readdir 7) 3 session
    ≡ some (map (dir_entry drive) (("a", plain) ∷ ("b", linked) ∷ []))
read_all_entries_example =
    read_all_entries drive (message MessageType.readdir 7) 3 session
      (("a", plain) ∷ ("b", linked) ∷ []) dir_there (omega arith)

one_kind : lookup 5 session.files ≢ none → lookup 5 session.dirs ≡ none
unfolding lookup
one_kind h = refl

close_lem_example :
    ((reply_close drive (message MessageType.close 5) session).replies
      ≡ status (if has_key 5 session.files || has_key 5 session.dirs then ok else invalid_handle)
        ∷ session.replies)
    × Closed drive 5 (reply_close drive (message MessageType.close 5) session)
    × ((h : ℕ)
        → h ≢ 5
        → (lookup h (reply_close drive (message MessageType.close 5) session).files
            ≡ lookup h session.files)
          × (lookup h (reply_close drive (message MessageType.close 5) session).dirs
              ≡ lookup h session.dirs))
close_lem_example = close_lem drive (message MessageType.close 5) session one_kind

abbrev target_of : Message → FileInfo
target_of m = drive.info 0 (get_filename drive session m.filename)

stat_swapped_example :
    ((target_of (message MessageType.stat 0)).is_sym_link ≡ true
      → (dispatch drive true 11 4 MessageType.stat (message MessageType.stat 0) session
          ≡ some (reply drive (status op_unsupported) session))
        × (dispatch drive true 11 4 MessageType.lstat (message MessageType.stat 0) session
            ≡ some (
                reply drive
                  (Reply.attributes (
                    get_file_attrs
                      (drive.info 0 (target_of (message MessageType.stat 0)).sym_link_target)))
                  session)))
    × ((target_of (message MessageType.stat 0)).is_sym_link ≡ false
        → (dispatch drive true 11 4 MessageType.stat (message MessageType.stat 0) session
            ≡ dispatch drive true 11 4 MessageType.lstat (message MessageType.stat 0) session)
          × (dispatch drive true 11 4 MessageType.stat (message MessageType.stat 0) session
              ≡ some (
                  reply drive
                    (if (target_of (message MessageType.stat 0)).exists
                      then Reply.attributes
                          (get_file_attrs (target_of (message MessageType.stat 0)))
                      else status no_such_file)
                    session)))
stat_swapped_example = stat_swapped drive (message MessageType.stat 0) session true 11 4

permissions_merge :
    (to_unix_permissions 26180 ≤ 15)
    × (has_bit (to_unix_permissions 26180) 1
        ≡ (has_bit 26180 1 || has_bit 26180 16 || has_bit 26180 256))
    × (has_bit (to_unix_permissions 26180) 2
        ≡ (has_bit 26180 2 || has_bit 26180 32 || has_bit 26180 512))
    × (has_bit (to_unix_permissions 26180) 4
        ≡ (has_bit 26180 4 || has_bit 26180 64 || has_bit 26180 1024))
permissions_merge = to_unix_permissions_merges 26180

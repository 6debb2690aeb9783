-- ===== src/Sftp/Attributes.antt =====
-- The attributes of a file in plugins/sftpserver/sftpservercommands.cpp.
pub mod Permissions
use Prim.Native.Nat.{bit_or}
use harbour_sailfishconnect.Base.{
  ℕ, ◌/◌, ◌%◌, String, ◌<>◌, Bool, true, false, not, eqb, if◌then◌else◌,
}
use harbour_sailfishconnect.Sftp.Types.{
  FileInfo, Files, Attributes, FileType, link, directory, regular, unknown,
}

-- (perms & 0xF) | ((perms & 0xF0) >> 4) | ((perms & 0xF00) >> 8)
unfoldable pub to_unix_permissions : ℕ → ℕ
to_unix_permissions perms = bit_or (bit_or (perms % 16) (perms / 16 % 16)) (perms / 256 % 16)

-- mode & (1 << k), for the weight 1 << k
unfoldable pub has_bit : ℕ → ℕ → Bool
has_bit mode weight = not (eqb (mode / weight % 2) 0)

abbrev pub flag : Bool → String → String
flag b letter = if b then letter else "-"

unfoldable pub permission_letters : ℕ → String
unfolding has_bit
permission_letters mode =
    flag (has_bit mode 0x4000) "r"
    <> (flag (has_bit mode 0x2000) "w"
        <> (flag (has_bit mode 0x1000) "x"
            <> (flag (has_bit mode 0x40) "r"
                <> (flag (has_bit mode 0x20) "w"
                    <> (flag (has_bit mode 0x10) "x"
                        <> (flag (has_bit mode 0x4) "r"
                            <> (flag (has_bit mode 0x2) "w" <> flag (has_bit mode 0x1) "x")))))))

unfoldable pub type_letter : FileInfo → String
type_letter info = if info.is_sym_link then "l" else if info.is_dir then "d" else "-"

unfoldable pub create_long_name : {W F : Type 0} → Files W F → FileInfo → String → String
unfolding type_letter permission_letters
create_long_name fs info filename =
    type_letter info
    <> (permission_letters info.permissions
        <> (" 1 "
            <> (fs.print info.owner_id
                <> (" "
                    <> (fs.print info.group_id
                        <> (" "
                            <> (fs.print info.size
                                <> (" " <> (info.modified_text <> (" " <> filename))))))))))

-- The bits of the file's type are kept apart, as `file_type`; `link` comes with 0777.
unfoldable pub get_file_attrs : FileInfo → Attributes
unfolding to_unix_permissions
get_file_attrs info =
    let plain = to_unix_permissions info.permissions in
    record {
      size = info.size;
      uid = info.owner_id;
      gid = info.group_id;
      permissions = if info.is_sym_link then bit_or plain 0o777 else plain;
      file_type =
          if info.is_sym_link
          then link
          else if info.is_dir
          then directory
          else if info.is_file
          then regular
          else unknown;
      atime = info.last_read / 1000;
      mtime = info.last_modified / 1000;
    }

-- ===== src/Sftp/Types.antt =====
-- What plugins/sftpserver/sftpservercommands.cpp and its libraries exchange: the messages and
-- replies of libssh, and the file system as Qt shows it, a parameter.
use harbour_sailfishconnect.Base.{ℕ, String, Bool, Option, List}

-- QFileInfo. The permissions are QFile::Permissions, four bits for each of other, group, user and
-- owner, from the lowest.
pub record FileInfo : Type 0 where
  pub exists : Bool
  pub is_dir : Bool
  pub is_file : Bool
  pub is_sym_link : Bool
  pub is_readable : Bool
  pub size : ℕ
  pub owner_id : ℕ
  pub group_id : ℕ
  pub permissions : ℕ
  pub last_read : ℕ
  pub last_modified : ℕ
  -- lastModified().toString("MMM d hh:mm:ss yyyy")
  pub modified_text : String
  pub sym_link_target : String
  -- empty if the file does not exist
  pub canonical_path : String

-- QIODevice::OpenMode
pub record OpenMode : Type 0 where
  pub read_only : Bool
  pub write_only : Bool
  pub append : Bool
  pub truncate : Bool
  pub text : Bool
  pub new_only : Bool
  pub existing_only : Bool

-- The file system with its state W and the open files F.
pub record Files (W F : Type 0) : Type 0 where
  pub home_path : String
  pub is_relative : String → Bool
  pub absolute_path : String → String → String
  pub print : ℕ → String
  pub info : W → String → FileInfo
  pub entries : W → String → List (String × FileInfo)
  pub open_file : OpenMode → String → W → Option F × W
  pub seek : ℕ → F → Bool × F
  -- `none` is a negative return value
  pub read : ℕ → F → Option (List ℕ) × F
  pub write : List ℕ → F → Option ℕ × F
  pub remove : String → W → Bool × W
  pub make_dir : String → W → Bool × W
  pub remove_dir : String → W → Bool × W
  pub rename : String → String → W → Bool × W
  pub link : String → String → W → Bool × W

pub data Status : Type 0 where
  ok eof no_such_file permission_denied failure op_unsupported : Status
  invalid_handle file_already_exists not_a_directory invalid_filename : Status

pub data FileType : Type 0 where
  link directory regular unknown : FileType

-- sftp_attributes_struct; the permissions without and with the bits of the file's type
pub record Attributes : Type 0 where
  pub size : ℕ
  pub uid : ℕ
  pub gid : ℕ
  pub permissions : ℕ
  pub file_type : FileType
  pub atime : ℕ
  pub mtime : ℕ

pub record Entry : Type 0 where
  pub filename : String
  pub long_name : String
  pub attributes : Option Attributes

pub data Reply : Type 0 where
  status : Status → Reply
  names : List Entry → Reply
  attributes : Attributes → Reply
  handle : ℕ → Reply
  bytes : List ℕ → Reply

pub data MessageType : Type 0 where
  readlink realpath stat lstat opendir readdir open_ read write close : MessageType
  remove mkdir rmdir rename symlink setstat fstat fsetstat extended other : MessageType

-- sftp_client_message. `handle` is what sftp_handle() finds for the client's handle.
pub record Message : Type 0 where
  pub type : MessageType
  pub filename : String
  pub target : String
  pub handle : ℕ
  pub flags : ℕ
  pub offset : ℕ
  pub len : ℕ
  pub payload : List ℕ

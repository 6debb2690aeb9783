-- ===== src/Io/FileHelper.antt =====
-- pluginscommon/filehelper.cpp. QString::number, QString::trimmed and the parts of QFileInfo are
-- Qt's, so they are parameters; the file system is the test whether a path exists.
pub mod Fresh
pub mod Escape
use Prim.Native.Char.{code}
use harbour_sailfishconnect.Base.{
  ℕ, zero, suc, ◌+◌, String, ◌<>◌, ◌≡◌, Bool, true, false, ◌||◌, Option, none, some, if◌then◌else◌,
  ◌==◌, eqb, string_eq,
}

pub record FilePath : Type 0 where
  pub dir : String
  pub name : String

-- QString::number, with what nonexistingFile relies on: different numbers print differently.
pub record Numbers : Type 0 where
  pub print : ℕ → String
  pub print_injective : (i j : ℕ) → print i ≡ print j → i ≡ j

-- QFileInfo: the part before the first dot of a file name, and the part behind it.
pub record NameParts : Type 0 where
  pub base_name : String → String
  pub complete_suffix : String → String
  pub has_dot : String → Bool

module _ (num : Numbers) (parts : NameParts) where
  unfoldable pub name_prefix : FilePath → String
  name_prefix path = parts.base_name path.name

  unfoldable pub name_suffix : FilePath → String
  name_suffix path =
      if parts.has_dot path.name
      then "." <> parts.complete_suffix path.name
      else parts.complete_suffix path.name

  -- The i-th name that the loop tries.
  unfoldable pub candidate : FilePath → ℕ → FilePath
  unfolding name_prefix name_suffix
  candidate path i =
      let front = name_prefix path in
      let back = name_suffix path in
      record {
        dir = path.dir;
        name =
            if front == ""
            then back <> (" (" <> (num.print i <> ")"))
            else front <> (" (" <> (num.print i <> (")" <> back)));
      }

  -- The two loops differ in the name only. `none` means that the fuel ran out.
  unfoldable pub search : (FilePath → Bool) → FilePath → ℕ → ℕ → FilePath → Option FilePath
  search exists path zero i result = none
  search exists path (suc fuel) i result = elim (exists result) [
    | true ↦ search exists path fuel (i + 1) (candidate path (i + 1))
    | false ↦ some result
  ]

  unfoldable pub nonexisting_file : (FilePath → Bool) → ℕ → FilePath → Option FilePath
  unfolding search
  nonexisting_file exists fuel path = search exists path fuel 0 path

-- result.replace(c, QString()) for the two characters that a file name cannot hold
unfoldable pub is_forbidden : ℕ → Bool
is_forbidden c = eqb c b'/' || eqb c 0

unfoldable pub remove_forbidden : String → String
unfolding is_forbidden
remove_forbidden String.[] = String.[]
remove_forbidden (String.◌∷◌ c s) =
    let rest = remove_forbidden s in if is_forbidden (code c) then rest else String.◌∷◌ c rest

unfoldable pub escape_for_file_path : (String → String) → String → String
unfolding remove_forbidden
escape_for_file_path trimmed name =
    let result = remove_forbidden (trimmed name) in
    if result == "" || result == "." || result == ".." then "_" else result

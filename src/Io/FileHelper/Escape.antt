-- ===== src/Io/FileHelper/Escape.antt =====
-- escapeForFilePath of pluginscommon/filehelper.cpp makes a name safe.
use Prim.Native.Char.{code}
use text.Mathlib.TextEquality.{eq_iff}
use harbour_sailfishconnect.Base.{
  String, ◌≡◌, refl, ◌≢◌, false, ◌||◌, arith, if_elim, ◌==◌, string_eq,
}
use harbour_sailfishconnect.Io.FileHelper.{is_forbidden, remove_forbidden, escape_for_file_path}

-- No character of the text is a slash or a NUL.
abbrev pub IsPlain : String → Type 0
IsPlain String.[] = Unit
IsPlain (String.◌∷◌ c s) = (is_forbidden (code c) ≡ false) × IsPlain s

remove_forbidden-IsPlain : (s : String) → IsPlain (remove_forbidden s)
unfolding remove_forbidden
remove_forbidden-IsPlain String.[] = tt
remove_forbidden-IsPlain (String.◌∷◌ c s) =
    if_elim IsPlain (is_forbidden (code c)) (λ _. remove_forbidden-IsPlain s)
      (λ e. (e, remove_forbidden-IsPlain s))

-- A name that a path can end in: no slash and no NUL in it, and neither empty nor a link to a
-- directory.
abbrev pub IsSafe : String → Type 0
IsSafe s = IsPlain s × (s ≢ "") × (s ≢ ".") × (s ≢ "..")

underscore-IsSafe : IsSafe "_"
unfolding is_forbidden
underscore-IsSafe = (
  (refl, tt),
  ground (arith, eq_iff "_" ""),
  ground (arith, eq_iff "_" "."),
  ground (arith, eq_iff "_" ".."),
)

kept-IsSafe : (s : String) → IsPlain s → (s == "" || s == "." || s == "..") ≡ false → IsSafe s
kept-IsSafe s h e =
    (h, ground (arith, eq_iff s ""), ground (arith, eq_iff s "."), ground (arith, eq_iff s ".."))

-- Whatever name the peer sends, the escaped name is safe: it has no slash and no NUL in it, and it
-- is neither empty nor one of the two directory links.
pub escape_for_file_path-IsSafe :
    (trimmed : String → String) (name : String) → IsSafe (escape_for_file_path trimmed name)
unfolding escape_for_file_path
escape_for_file_path-IsSafe trimmed name =
    if_elim IsSafe _ (λ _. underscore-IsSafe)
      (kept-IsSafe (remove_forbidden (trimmed name)) (remove_forbidden-IsPlain (trimmed name)))

remove_forbidden_id : (s : String) → IsPlain s → remove_forbidden s ≡ s
unfolding remove_forbidden
remove_forbidden_id String.[] h = refl
remove_forbidden_id (String.◌∷◌ c s) (h, rest) = simp (h, remove_forbidden_id s rest)

-- A name that is safe is left alone, if trimming leaves it alone.
pub escape_for_file_path_id :
    (trimmed : String → String) (name : String)
    → trimmed name ≡ name
    → IsSafe name
    → escape_for_file_path trimmed name ≡ name
unfolding escape_for_file_path
escape_for_file_path_id trimmed name e (plain, a, b, c) =
    rw (e, remove_forbidden_id name plain)
      (ground (arith, eq_iff name "", eq_iff name ".", eq_iff name ".."))

-- ===== src/Tests/Names.antt =====
-- Names in a directory that has one file, `a`.
use harbour_sailfishconnect.Base.{
  ℕ, zero, suc, ◌≡◌, refl, ap, String, Bool, true, false, some, List, [], ◌∷◌, contains, string_eq,
  ◌==◌, arith, pos,
}
use harbour_sailfishconnect.Io.FileHelper.{
  FilePath, Numbers, NameParts, nonexisting_file, escape_for_file_path, is_forbidden, candidate,
  search,
}
use harbour_sailfishconnect.Io.FileHelper.Fresh.{nonexisting_file_total}
use harbour_sailfishconnect.Io.FileHelper.Escape.{
  IsSafe, escape_for_file_path-IsSafe, escape_for_file_path_id,
}
use harbour_sailfishconnect.Io.DownloadJob.{Files, DownloadJob, create, do_start}
use harbour_sailfishconnect.Io.DownloadJob.Safety.{WritesFresh, do_start-WritesFresh}
use harbour_sailfishconnect.Tests.Io.{memory, buffer}

abbrev pub tally : ℕ → String
tally zero = ""
tally (suc n) = String.◌∷◌ "i" (tally n)

pub tally_injective : (i j : ℕ) → tally i ≡ tally j → i ≡ j
tally_injective zero zero h = refl
tally_injective zero (suc j) h = cc
tally_injective (suc i) zero h = cc
tally_injective (suc i) (suc j) h = ap suc (tally_injective i j cc)

abbrev pub numbers : Numbers
numbers = record { print = tally; print_injective = tally_injective }

abbrev pub parts : NameParts
parts = record { base_name = λ s. s; complete_suffix = λ s. ""; has_dot = λ s. false }

abbrev has_a : FilePath → Bool
has_a path = path.name == "a"

abbrev place : FilePath
place = record { dir = "d"; name = "a" }

pub only_a : (name : String) → (name == "a") ≡ true → contains ("a" ∷ []) name ≡ true
only_a name h = ground (arith, string_eq.beq_iff name "a", string_eq.beq_iff "a" name)

second_name :
    nonexisting_file numbers parts has_a 3 place ≡ some (record { dir = "d"; name = "a (i)" })
unfolding nonexisting_file search candidate
second_name = refl

nonexisting_file_total_example :
    (r : FilePath) × (nonexisting_file numbers parts has_a 3 place ≡ some r)
    × (has_a r ≡ false)
    × (r.dir ≡ "d")
    × (has_a place ≡ false → r ≡ place)
nonexisting_file_total_example = nonexisting_file_total numbers parts has_a place ("a" ∷ []) only_a

escape_for_file_path-IsSafe_example : IsSafe (escape_for_file_path (λ s. s) "../a")
escape_for_file_path-IsSafe_example = escape_for_file_path-IsSafe (λ s. s) "../a"

a-IsSafe : IsSafe "a"
unfolding is_forbidden
a-IsSafe = ((refl, tt), λ h. cc, λ h. cc, λ h. cc)

safe_name_kept : escape_for_file_path (λ s. s) "a" ≡ "a"
safe_name_kept = escape_for_file_path_id (λ s. s) "a" refl a-IsSafe

abbrev pub files : Files (List ℕ)
files = record { make_path = λ d. true; exists = has_a; open_write = λ p. some [] }

abbrev incoming : DownloadJob memory buffer
incoming = create (1 ∷ 2 ∷ [], []) [] place (pos 2)

place_taken :
    (name : String)
    → files.exists (record { dir = incoming.destination.dir; name = name }) ≡ true
    → contains ("a" ∷ []) name ≡ true
place_taken name h = only_a name h

do_start-WritesFresh_example :
    (e : DownloadJob memory buffer) × (do_start memory buffer numbers parts files 3 incoming
      ≡ some e)
    × WritesFresh memory buffer numbers parts files incoming e
do_start-WritesFresh_example =
    do_start-WritesFresh memory buffer numbers parts files incoming ("a" ∷ []) place_taken

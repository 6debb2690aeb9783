-- ===== src/Tests/App.antt =====
-- Two jobs, a list of texts and a list of players.
use Prim.Native.Char.{Char, code}
use text.Mathlib.TextEquality.{Char-path}
use harbour_sailfishconnect.Base.{
  ℕ, ◌≡◌, refl, sym, if◌then◌else◌, ◌&&◌, ◌↔◌, String, Bool, true, false, [], ◌∷◌, map, contains,
  string_eq, ◌==◌, eqb, arith, pos, ltb,
}
use harbour_sailfishconnect.App.Jobs.{
  download, upload, JobManager, job_removed, canceled, new_info, infos_of, unregister_job,
  on_finished, on_description, get_target, set_device, set_target,
}
use harbour_sailfishconnect.App.Jobs.Registry.{Distinct, others, unregister_job_lem}
use harbour_sailfishconnect.App.Jobs.States.{description_silent, error_shown}
use harbour_sailfishconnect.App.Models.Views.{Follows, setting, perform, operations-Follow}
use harbour_sailfishconnect.App.Models.{edit}
use harbour_sailfishconnect.App.Models.Players.{
  Order, Sorted, came, went, notify_all, is_there, players-Sorted,
}

abbrev manager : JobManager
manager = record {
  jobs = new_info 0 40 (download "/d/a" "x") ∷ new_info 1 41 (upload "x") ∷ [];
  next = 2;
}

two_infos : Distinct manager.jobs
unfolding new_info
two_infos = ((refl, tt), (tt, tt))

unregister_job_lem_example :
    ((unregister_job 40 manager).1.jobs ≡ others 40 manager.jobs)
    × ((unregister_job 40 manager).0 ≡ map job_removed (infos_of 40 manager.jobs))
unregister_job_lem_example = unregister_job_lem 40 manager two_infos

description_stays_silent :
    ((on_description "Receiving" ("", "") ("", "") (new_info 0 40 (upload "x"))).0 ≡ [])
    × ((on_description "Receiving" ("", "") ("", "") (new_info 0 40 (upload "x"))).1.title
        ≡ "Receiving")
description_stays_silent =
    description_silent "Receiving" ("", "") ("", "") (new_info 0 40 (upload "x"))

abbrev error_name : ℕ → String
error_name n = "Error"

named : (n : ℕ) → (error_name n == "") ≡ false
named n = refl

no_error_yet : (new_info 0 40 (upload "x")).error_string ≡ ""
unfolding new_info get_target set_device set_target
no_error_yet = refl

error_is_shown :
    (((on_finished error_name 1 "" (new_info 0 40 (upload "x"))).1.error_string == "") ≡ eqb 1 0)
    × (((on_finished error_name 1 "" (new_info 0 40 (upload "x"))).1.state ≡ canceled)
        ↔ ◌≡◌ {A = ℕ} 1 1)
error_is_shown = error_shown error_name 1 "" (new_info 0 40 (upload "x")) named no_error_yet

operations-Follow_example :
    Follows ("a" ∷ "b" ∷ []) (perform (setting (pos 1) "c" edit) ("a" ∷ "b" ∷ []))
operations-Follow_example = operations-Follow (setting (pos 1) "c" edit) ("a" ∷ "b" ∷ [])

abbrev pub less : String → String → Bool
less String.[] String.[] = false
less String.[] (String.◌∷◌ d t) = true
less (String.◌∷◌ c s) String.[] = false
less (String.◌∷◌ c s) (String.◌∷◌ d t) =
    let rest = less s t in if ltb (code c) (code d) then true else eqb (code c) (code d) && rest

less_self : (a : String) → less a a ≡ false
less_self String.[] = refl
less_self (String.◌∷◌ c s) = ground (arith, less_self s)

less_trans : (a b c : String) → less a b ≡ true → less b c ≡ true → less a c ≡ true
less_trans String.[] String.[] String.[] h k = h
less_trans String.[] (String.◌∷◌ y b) String.[] h k = k
less_trans String.[] b (String.◌∷◌ z c) h k = refl
less_trans (String.◌∷◌ x a) String.[] c h k = cc
less_trans (String.◌∷◌ x a) (String.◌∷◌ y b) String.[] h k = cc
less_trans (String.◌∷◌ x a) (String.◌∷◌ y b) (String.◌∷◌ z c) h k = ground (arith, less_trans a b c)

codes_agree :
    (c d : Char) (s t : String)
    → less (String.◌∷◌ c s) (String.◌∷◌ d t) ≡ false
    → less (String.◌∷◌ d t) (String.◌∷◌ c s) ≡ false
    → code c ≡ code d
codes_agree c d s t h k = ground arith

rest_first :
    (c d : Char) (s t : String)
    → less (String.◌∷◌ c s) (String.◌∷◌ d t) ≡ false
    → code c ≡ code d
    → less s t ≡ false
rest_first c d s t h e = ground arith

ap2_cons : (c d : Char) (s t : String) → c ≡ d → s ≡ t → String.◌∷◌ c s ≡ String.◌∷◌ d t
ap2_cons c d s t e f = cc

less_total : (a b : String) → less a b ≡ false → less b a ≡ false → a ≡ b
less_total String.[] String.[] h k = refl
less_total String.[] (String.◌∷◌ d t) h k = cc
less_total (String.◌∷◌ c s) String.[] h k = cc
less_total (String.◌∷◌ c s) (String.◌∷◌ d t) h k =
    ap2_cons c d s t (Char-path c d (codes_agree c d s t h k)) (
      less_total s t (rest_first c d s t h (codes_agree c d s t h k))
        (rest_first d c t s k (sym (codes_agree c d s t h k))))

pub less-Order : Order less
less-Order = record { irreflexive = less_self; transitive = less_trans; total = less_total }

two_players : Sorted less less-Order ("a" ∷ "c" ∷ [])
two_players = ((refl, tt), (tt, tt))

added_and_removed :
    Sorted less less-Order (notify_all less less-Order (came "b" ∷ went "c" ∷ []) ("a" ∷ "c" ∷ []))
    × ((name : String)
        → contains (notify_all less less-Order (came "b" ∷ went "c" ∷ []) ("a" ∷ "c" ∷ [])) name
          ≡ is_there name (came "b" ∷ went "c" ∷ []) (contains ("a" ∷ "c" ∷ []) name))
added_and_removed =
    players-Sorted less less-Order (came "b" ∷ went "c" ∷ []) ("a" ∷ "c" ∷ []) two_players

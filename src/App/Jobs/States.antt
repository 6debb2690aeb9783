-- ===== src/App/Jobs/States.antt =====
-- What a JobInfo of app/src/io/jobmanager.cpp shows of its job.
use harbour_sailfishconnect.Base.{
  ℕ, String, Bool, true, false, not, [], if◌then◌else◌, ◌==◌, string_eq, eqb, ◌≡◌, ◌↔◌, arith,
  if_elim, ap, ◌∙◌,
}
use harbour_sailfishconnect.App.Jobs.{JobInfo, canceled, finished, on_description, on_finished}

-- The change of a title is never signalled: whatever the description of a job says, it is stored
-- and no signal is emitted.
pub description_silent :
    (title : String) (field1 field2 : String × String) (i : JobInfo)
    → ((on_description title field1 field2 i).0 ≡ [])
      × ((on_description title field1 field2 i).1.title ≡ title)
unfolding on_description
description_silent title field1 field2 i = ground (arith, string_eq.beq_iff title title)

negation_true : (b : Bool) → not b ≡ true → false ≡ b
negation_true true h = ground arith
negation_true false h = ground arith

negation_false : (b : Bool) → not b ≡ false → true ≡ b
negation_false true h = ground arith
negation_false false h = ground arith

text_shown :
    (n : String) (error_text : String)
    → (n == "") ≡ false
    → ((if error_text == "" then n else error_text) == "") ≡ false
text_shown n error_text h =
    if_elim (λ (s : String). (s == "") ≡ false) (error_text == "") (λ t. h) (λ f. f)

state_canceled :
    (error : ℕ) → ((if eqb error 1 then canceled else finished) ≡ canceled) ↔ (error ≡ 1)
state_canceled error = ground arith

-- A JobInfo that had no error shows one after the end of the job exactly when the job ended with
-- one, provided that the translation of "Error %1" is never empty; and it is canceled
-- exactly when the job was killed.
pub error_shown :
    (error_number : ℕ → String) (error : ℕ) (error_text : String) (i : JobInfo)
    → ((n : ℕ) → (error_number n == "") ≡ false)
    → i.error_string ≡ ""
    → (((on_finished error_number error error_text i).1.error_string == "") ≡ eqb error 0)
      × (((on_finished error_number error error_text i).1.state ≡ canceled) ↔ (error ≡ 1))
unfolding on_finished
error_shown error_number error error_text i h e =
    if_elim
      (λ (k : JobInfo).
        ((k.error_string == "") ≡ eqb error 0) × ((k.state ≡ canceled) ↔ (error ≡ 1)))
      (not (eqb error 0))
      (λ t. (
        text_shown (error_number error) error_text (h error) ∙ negation_true (eqb error 0) t,
        state_canceled error,
      ))
      (λ f. (ap (λ s. s == "") e ∙ negation_false (eqb error 0) f, state_canceled error))

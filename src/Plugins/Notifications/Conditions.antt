-- ===== src/Plugins/Notifications/Conditions.antt =====
-- When the tests of onNotify() in plugins/sf_sendnotifications/notificationslistener.cpp hold.
use harbour_sailfishconnect.Base.{
  ◌<>◌, ◌≢◌, ℤ, inl, inr, Bool-cases, ◌⊎◌, String, Bool, true, false, not, ◌&&◌, ◌||◌, ◌≡◌, refl,
  sym, ◌∙◌, Option, none, some, if◌then◌else◌, ◌==◌, string_eq, get_or, minus_one, ltb_ℤ, arith, ap,
  subst, ◌↔◌,
}

-- The text that is shown for a notification, given its summary, its body and what the configuration
-- says of bodies: the summary, and the body if there is one and bodies are not excluded.
pub data Shown (summary body : String) (include : Option Bool) : String → Type 0 where
  without_body : body ≡ "" → Shown summary body include summary
  body_excluded : include ≡ some false → Shown summary body include summary
  with_body :
      body ≢ "" → include ≢ some false → Shown summary body include (summary <> ": " <> body)

abbrev ticker : String → String → Option Bool → String
ticker summary body include =
    if not (body == "") && get_or include true then summary <> ": " <> body else summary

is_empty : (s : String) → s ≡ "" → (s == "") ≡ true
is_empty s = (string_eq.beq_iff s "").1

not_empty : (s : String) → s ≢ "" → (s == "") ≡ false
not_empty s h = elim (Bool-cases (s == "")) [
  | inl t ↦ absurd (h ((string_eq.beq_iff s "").0 t))
  | inr f ↦ f
]

was_not_empty : (s : String) → (s == "") ≡ false → s ≢ ""
was_not_empty s f e = ground (arith, f, is_empty s e)

ticker-Shown :
    (summary body : String) (include : Option Bool)
    → Shown summary body include (ticker summary body include)
ticker-Shown summary body include = elim (Bool-cases (body == "")) [
  | inl t ↦ rw t (without_body ((string_eq.beq_iff body "").0 t))
  | inr f ↦ rw f (shown_by include (was_not_empty body f))
]
  where
    shown_by :
        (o : Option Bool)
        → body ≢ ""
        → Shown summary body o (if get_or o true then summary <> ": " <> body else summary)
    shown_by none h = with_body h (λ e. cc)
    shown_by (some true) h = with_body h (λ e. cc)
    shown_by (some false) h = body_excluded refl

Shown-ticker :
    (summary body : String) (include : Option Bool) {shown : String}
    → Shown summary body include shown
    → ticker summary body include ≡ shown
Shown-ticker summary body include (without_body e) = rw (is_empty body e) refl
Shown-ticker summary body include (body_excluded e) = ground (arith, e)
Shown-ticker summary body none (with_body h e) = rw (not_empty body h) refl
Shown-ticker summary body (some true) (with_body h e) = rw (not_empty body h) refl
Shown-ticker summary body (some false) (with_body h e) = absurd (e refl)

either : (a b : Bool) → (a || b) ≡ true → (a ≡ true) ⊎ (b ≡ true)
either true b h = inl refl
either false b h = inr h

both : (a b : Bool) → (a && b) ≡ true → (a ≡ true) × (b ≡ true)
both true b h = (refl, h)
both false b h = ground arith

first_of : (a b : Bool) → a ≡ true → (a || b) ≡ true
first_of true b h = refl
first_of false b h = ground arith

or_else : (a b : Bool) → b ≡ true → (a || b) ≡ true
or_else true b h = refl
or_else false b h = h

pub or_iff :
    (a b : Bool) {A B : Type 0} → (a ≡ true ↔ A) → (b ≡ true ↔ B) → ((a || b) ≡ true) ↔ (A ⊎ B)
or_iff a b f g = (
  λ h. elim (either a b h) [ inl x ↦ inl (f.0 x) | inr y ↦ inr (g.0 y) ],
  λ s. elim s [ inl x ↦ first_of a b (f.1 x) | inr y ↦ or_else a b (g.1 y) ],
)

of_not : (a : Bool) → not a ≡ true → a ≡ false
of_not true h = ground arith
of_not false h = refl

pub text_is :
    {V : Type 0} (to_text : V → String) (wanted : String) (o : Option V)
    → wanted ≢ ""
    → (((elim o [ none ↦ "" | some v ↦ to_text v ]) == wanted) ≡ true)
      ↔ ((v : V) × (o ≡ some v) × (to_text v ≡ wanted))
text_is to_text wanted none given =
    (λ h. absurd (given (sym ((string_eq.beq_iff "" wanted).0 h))), λ (v, e, is). ground (arith, e))
text_is to_text wanted (some w) given = (
  λ h. (w, refl, (string_eq.beq_iff (to_text w) wanted).0 h),
  λ (v, e, is).
      (string_eq.beq_iff (to_text w) wanted).1
        (ap (λ o. elim o [ none ↦ "" | some v ↦ to_text v ]) e ∙ is),
)

pub flag_is :
    {V : Type 0} (to_bool : V → Bool) (o : Option V)
    → ((elim o [ none ↦ false | some v ↦ to_bool v ]) ≡ true)
      ↔ ((v : V) × (o ≡ some v) × (to_bool v ≡ true))
flag_is to_bool none = (λ h. ground arith, λ (v, e, is). ground (arith, e))
flag_is to_bool (some w) =
    (λ h. (w, refl, h), λ (v, e, is). ap (λ o. elim o [ none ↦ false | some v ↦ to_bool v ]) e ∙ is)

int_found : (o : Option ℤ) → ltb_ℤ minus_one (get_or o minus_one) ≡ true → (i : ℤ) × (o ≡ some i)
int_found none h = ground arith
int_found (some i) h = (i, refl)

-- The urgency is known, and below the limit.
pub urgency_is :
    {V : Type 0} (to_int : V → Option ℤ) (limit : ℤ) (o : Option V)
    → let u : ℤ = elim o [ none ↦ minus_one | some v ↦ get_or (to_int v) minus_one ] in
      ((ltb_ℤ minus_one u && ltb_ℤ u limit) ≡ true) ↔ (
        (v : V) × (i : ℤ) × (o ≡ some v)
        × (to_int v ≡ some i)
        × (ltb_ℤ minus_one i ≡ true)
        × (ltb_ℤ i limit ≡ true))
urgency_is to_int limit none = (λ h. ground arith, λ (v, i, e, is, set, low). ground (arith, e))
urgency_is to_int limit (some w) =
    let u = get_or (to_int w) minus_one in
    (
      λ h.
          let (set, low) = both (ltb_ℤ minus_one u) (ltb_ℤ u limit) h in
          let (i, is) = int_found (to_int w) set in
          let same : u ≡ i = ap (λ o. get_or o minus_one) is in
          (
            w,
            i,
            refl,
            is,
            subst (λ k. ltb_ℤ minus_one k ≡ true) same set,
            subst (λ k. ltb_ℤ k limit ≡ true) same low,
          ),
      λ (v, i, e, is, set, low).
          let same : u ≡ i =
            ap (λ o. elim o [ none ↦ minus_one | some v ↦ get_or (to_int v) minus_one ]) e
            ∙ ap (λ o. get_or o minus_one) is in
          subst (λ k. (ltb_ℤ minus_one k && ltb_ℤ k limit) ≡ true) (sym same) (rw (set, low) refl),
    )

pub lasting_is :
    (b : Bool) (o : Option Bool) → ((b && get_or o false) ≡ true) ↔ ((b ≡ true) × (o ≡ some true))
lasting_is true none = (λ h. ground arith, λ h. ground (arith, h))
lasting_is false none = (λ h. ground arith, λ h. ground (arith, h))
lasting_is true (some c) = (λ h. (refl, ap some h), λ h. ap (λ o. get_or o false) h.1)
lasting_is false (some c) = (λ h. ground arith, λ h. ground (arith, h))

pub not_is : (a : Bool) → (not a ≡ true) ↔ (a ≡ false)
not_is true = (λ h. ground arith, λ h. ground arith)
not_is false = (λ h. refl, λ h. refl)

-- The valid expression, which is not empty, matches the text that is shown.
pub blacklist_is :
    (valid : Bool) (expression summary body : String) (include : Option Bool)
    (matches : String → Bool)
    → ((valid && not (expression == "") && matches (ticker summary body include)) ≡ true) ↔ (
        (shown : String) × Shown summary body include shown
        × (valid ≡ true)
        × (expression ≢ "")
        × (matches shown ≡ true))
blacklist_is valid expression summary body include matches =
    let text = ticker summary body include in
    (
      λ h.
          let (rest, match) = both (valid && not (expression == "")) (matches text) h in
          let (is_valid, given) = both valid (not (expression == "")) rest in
          (
            text,
            ticker-Shown summary body include,
            is_valid,
            was_not_empty expression (of_not (expression == "") given),
            match,
          ),
      λ (shown, s, is_valid, given, match).
          rw (is_valid, not_empty expression given)
            (ap matches (Shown-ticker summary body include s) ∙ match),
    )

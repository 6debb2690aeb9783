-- ===== src/Tests/Streams.antt =====
-- A stream of texts and flags: a text's characters are written by their numbers and one, up to 0.
use Prim.Native.Nat.{Ordering, compare}
use Prim.Native.Char.{Char, char, code, nul, IsLt}
use harbour_sailfishconnect.Base.{
  ℕ, zero, suc, String, Bool, true, false, Option, none, some, [], ◌∷◌, ◌++◌, eqb, ◌≡◌, refl, ap,
}
use harbour_sailfishconnect.Plugins.Notifications.{Bytes, Streams}
use harbour_sailfishconnect.Plugins.Notifications.Applications.{Decodes}

abbrev AreLt : Ordering → Ordering → Type 0
AreLt Ordering.lt o = IsLt o
AreLt Ordering.eq _ = ⊥
AreLt Ordering.gt _ = ⊥

abbrev Scalar : Ordering → Ordering → Ordering → Type 0
Scalar Ordering.lt _ _ = Unit
Scalar Ordering.eq o p = AreLt o p
Scalar Ordering.gt o p = AreLt o p

abbrev are_lt : (o p : Ordering) → Option (AreLt o p)
are_lt Ordering.lt Ordering.lt = some tt
are_lt Ordering.lt Ordering.eq = none
are_lt Ordering.lt Ordering.gt = none
are_lt Ordering.eq p = none
are_lt Ordering.gt p = none

abbrev scalar : (o p q : Ordering) → Option (Scalar o p q)
scalar Ordering.lt p q = some tt
scalar Ordering.eq p q = are_lt p q
scalar Ordering.gt p q = are_lt p q

are_lt-some : (o p : Ordering) (h : AreLt o p) → are_lt o p ≡ some h
are_lt-some Ordering.lt Ordering.lt h = refl
are_lt-some Ordering.lt Ordering.eq h = elim h [ ]
are_lt-some Ordering.lt Ordering.gt h = elim h [ ]
are_lt-some Ordering.eq p h = elim h [ ]
are_lt-some Ordering.gt p h = elim h [ ]

scalar-some : (o p q : Ordering) (h : Scalar o p q) → scalar o p q ≡ some h
scalar-some Ordering.lt p q h = refl
scalar-some Ordering.eq p q h = are_lt-some p q h
scalar-some Ordering.gt p q h = are_lt-some p q h

abbrev char_of :
    (n : ℕ) → Option (Scalar (compare n 55296) (compare 57343 n) (compare n 1114112)) → Char
char_of n none = nul
char_of n (some h) = char n h

abbrev of_code : ℕ → Char
of_code n = char_of n (scalar (compare n 55296) (compare 57343 n) (compare n 1114112))

of_code-code : (c : Char) → of_code (code c) ≡ c
of_code-code (char n h) =
    ap (char_of n) (scalar-some (compare n 55296) (compare 57343 n) (compare n 1114112) h)

abbrev encode_text : String → Bytes
encode_text String.[] = 0 ∷ []
encode_text (String.◌∷◌ c s) = suc (code c) ∷ encode_text s

abbrev decode_text : Bytes → String × Bytes
decode_text [] = ("", [])
decode_text (zero ∷ bytes) = ("", bytes)
decode_text (suc n ∷ bytes) = let (s, rest) = decode_text bytes in (String.◌∷◌ (of_code n) s, rest)

abbrev decode_flag : Bytes → Bool × Bytes
decode_flag [] = (false, [])
decode_flag (b ∷ bytes) = (eqb b 1, bytes)

abbrev encode_flag : Bool → Bytes
encode_flag true = 1 ∷ []
encode_flag false = 0 ∷ []

abbrev pub streams : Streams
streams = record {
  encode_text = encode_text;
  encode_flag = encode_flag;
  decode_text = decode_text;
  decode_flag = decode_flag;
}

decode-encode : (s : String) (rest : Bytes) → decode_text (encode_text s ++ rest) ≡ (s, rest)
decode-encode String.[] rest = refl
decode-encode (String.◌∷◌ c s) rest = rw (decode-encode s rest, of_code-code c) refl

decode-flag : (b : Bool) (rest : Bytes) → decode_flag (encode_flag b ++ rest) ≡ (b, rest)
decode-flag true rest = refl
decode-flag false rest = refl

pub streams-Decodes : Decodes streams
streams-Decodes = record { of_text = decode-encode; of_flag = decode-flag }

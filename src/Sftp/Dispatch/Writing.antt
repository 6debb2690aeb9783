-- ===== src/Sftp/Dispatch/Writing.antt =====
-- The loop of replyWriteFile in plugins/sftpserver/sftpservercommands.cpp.
use harbour_sailfishconnect.Base.{
  ℕ, zero, suc, ◌≤◌, ◌<◌, ◌≡◌, refl, ap, ◌∙◌, sym, Bool, true, false, Option, none, some, List, [],
  ◌∷◌, ◌++◌, arith, length, take, drop, length-drop, append_assoc, append-nil, take-append-drop,
  eqb, Bool-cases, inl, inr, nat_eq, not, if◌then◌else◌,
}
use harbour_sailfishconnect.Base.Dict.{lookup}
use harbour_sailfishconnect.Sftp.Types.{Files, Message, status, ok, failure}
use harbour_sailfishconnect.Sftp.Commands.{Session, keep, reply}
use harbour_sailfishconnect.Sftp.Dispatch.{write_loop, written, write_to, reply_write_file}

-- QFile::write: it accepts a prefix of what it is given, and a part of it unless that is empty.
-- `history` is all that a file has accepted.
pub record Writes {W F : Type 0} (fs : Files W F) : Type 0 where
  pub history : F → List ℕ
  pub accepts :
      (left : List ℕ) (f g : F) (n : ℕ)
      → fs.write left f ≡ (some n, g)
      → (n ≤ length left) × (0 < length left → 0 < n) × (history g ≡ history f ++ take n left)

module _ {W F : Type 0} (fs : Files W F) where
  -- The loop has an end, and if it is not an error, then all bytes are written, in their order.
  abbrev pub Ends : Writes fs → List ℕ → F → Option (Bool × F) → Type 0
  Ends laws left f r =
      (b : Bool) × (g : F) × (r ≡ some (b, g))
      × (b ≡ true → laws.history g ≡ laws.history f ++ left)

  length_zero : (xs : List ℕ) → eqb (length xs) 0 ≡ true → xs ≡ []
  length_zero [] h = refl
  length_zero (x ∷ xs) h = absurd (ground arith)

  after_write :
      (laws : Writes fs) (left : List ℕ) (f g : F) (n fuel : ℕ)
      → fs.write left f ≡ (some n, g)
      → Ends laws (drop n left) g (write_loop fs fuel (drop n left) g)
      → Ends laws left f (write_loop fs fuel (drop n left) g)
  after_write laws left f g n fuel e (b, h, found, all) = (
    b,
    h,
    found,
    λ success.
        all success
        ∙ (rw ((laws.accepts left f g n e).2, append_assoc (laws.history f))
            (ap (◌++◌ (laws.history f)) (take-append-drop n left))),
  )

  pub write_loop-Ends :
      (laws : Writes fs) (fuel : ℕ) (left : List ℕ) (f : F)
      → length left < fuel
      → Ends laws left f (write_loop fs fuel left f)
  unfolding write_loop
  write_loop-Ends laws zero left f lt = elim lt [ ]
  write_loop-Ends laws (suc fuel) left f lt = elim (Bool-cases (eqb (length left) 0)) [
    | inl e ↦
        rw (e, write_loop)
          (true, f, refl, λ _. rw (length_zero left e) (sym (append-nil (laws.history f))))
    | inr e ↦
        rw (e, write_loop)
          (written_part (write_loop-Ends laws fuel) (fs.write left f).0 (fs.write left f).1 refl e)
  ]
    where
      written_part :
          ((xs : List ℕ) (g : F) → length xs < fuel → Ends laws xs g (write_loop fs fuel xs g))
          → (r : Option ℕ) (g : F) → fs.write left f ≡ (r, g)
          → eqb (length left) 0 ≡ false
          → Ends laws left f
              (elim r [ none ↦ some (false, g) | some n ↦ write_loop fs fuel (drop n left) g ])
      written_part go none g w e = (false, g, refl, λ h. cc)
      written_part go (some n) g w e =
          after_write laws left f g n fuel w
            (go (drop n left) g (ground (arith, length-drop n left, laws.accepts left f g n w)))

  pub written_lem :
      (m : Message) (s : Session W F) (b : Bool) (g : F)
      → written fs m s (some (b, g))
        ≡ some (reply fs (status (if b then ok else failure)) (keep fs m.handle g s))
  unfolding written
  written_lem m s true g = refl
  written_lem m s false g = refl

  write_to_found :
      (fuel : ℕ) (m : Message) (s : Session W F) (file f : F)
      → fs.seek m.offset file ≡ (true, f)
      → write_to fs fuel m file s ≡ written fs m s (write_loop fs fuel m.payload f)
  unfolding write_to
  write_to_found fuel m s file f e =
      ap
        (λ (r : Bool × F).
          if not r.0
          then some (reply fs (status failure) (keep fs m.handle r.1 s))
          else written fs m s (write_loop fs fuel m.payload r.1))
        e

  write_file_found :
      (fuel : ℕ) (m : Message) (s : Session W F) (file : F)
      → lookup m.handle s.files ≡ some file
      → reply_write_file fs fuel m s ≡ write_to fs fuel m file s
  unfolding reply_write_file
  write_file_found fuel m s file e = rw (e, reply_write_file)

  -- A write is answered, after at most as many rounds as the message has bytes and one more. The
  -- file is found and the position set; then the reply is OK or FAILURE, and with OK the file has
  -- accepted all bytes of the message, in their order.
  pub write_file_total :
      (laws : Writes fs) (fuel : ℕ) (m : Message) (s : Session W F) (file f : F)
      → lookup m.handle s.files ≡ some file
      → fs.seek m.offset file ≡ (true, f)
      → length m.payload < fuel
      → (b : Bool) × (g : F) × (reply_write_file fs fuel m s
          ≡ some (reply fs (status (if b then ok else failure)) (keep fs m.handle g s)))
        × (b ≡ true → laws.history g ≡ laws.history f ++ m.payload)
  write_file_total laws fuel m s file f found sought lt =
      let (b, g, ended, all) = write_loop-Ends laws fuel m.payload f lt in
      (
        b,
        g,
        write_file_found fuel m s file found
            ∙ (write_to_found fuel m s file f sought
                ∙ (ap (written fs m s) ended ∙ written_lem m s b g)),
        all,
      )

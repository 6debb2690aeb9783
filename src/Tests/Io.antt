-- ===== src/Tests/Io.antt =====
-- A copy of three bytes between two devices in memory, a copy from a device that fails, and names in
-- a directory.
use harbour_sailfishconnect.Base.{
  ℕ, ◌≡◌, refl, ap, true, false, none, some, List, [], ◌∷◌, ◌++◌, length, take, drop, length-take,
  string_eq, arith, pos, is_nonneg,
}
use harbour_sailfishconnect.Io.Device.{Source, Sink, SourceLaws, SinkLaws}
use harbour_sailfishconnect.Io.CopyJob.{CopyJob, init, poll, do_start, bytes_to_write}
use harbour_sailfishconnect.Io.CopyJob.Events.{
  polls, kills, handle, when_connected, starts, handles, Reach, here, next,
}
use harbour_sailfishconnect.Io.CopyJob.Transfer.{Inv, Reach-Inv, init-Inv}
use harbour_sailfishconnect.Io.CopyJob.Result.{success_complete, finished_final, reported_success}

-- What is left to read, and what was read.
abbrev pub memory : Source
memory = record {
  State = List ℕ × List ℕ;
  is_open = λ s. true;
  is_readable = λ s. true;
  is_sequential = λ s. false;
  is_network_reply = λ s. false;
  size = λ s. length s.0;
  bytes_available = λ s. length s.0;
  read = λ n s. (some (take n s.0), (drop n s.0, s.1 ++ take n s.0));
  close = λ s. s;
  consumed = λ s. s.1;
}

memory-laws : SourceLaws memory
memory-laws = record {
  read_some = λ n s s' bytes e. ground (arith, length-take n s.0);
  read_none = λ n s s' e. cc;
  close_keeps = λ s. refl;
}

abbrev pub buffer : Sink
buffer = record {
  State = List ℕ;
  is_open = λ d. true;
  is_writable = λ d. true;
  is_sequential = λ d. false;
  is_ssl_socket = λ d. false;
  bytes_to_write = λ d. 0;
  encrypted_bytes_to_write = λ d. 0;
  write = λ bytes d. (some (length bytes), d ++ bytes);
  disconnect_from_host = λ d. d;
  close = λ d. d;
  received = λ d. d;
}

take_all : (xs : List ℕ) → take (length xs) xs ≡ xs
take_all [] = refl
take_all (x ∷ xs) = ap (λ t. x ∷ t) (take_all xs)

buffer-laws : SinkLaws buffer
buffer-laws = record {
  write_some = λ bytes d d' n e. ground (arith, take_all bytes);
  write_none = λ bytes d d' e. cc;
  close_keeps = λ d. refl;
  disconnect_keeps = λ d. refl;
}

abbrev new_job : CopyJob memory buffer
new_job = init (1 ∷ 2 ∷ 3 ∷ [], []) [] (pos 3)

abbrev copied : CopyJob memory buffer
copied = handle memory buffer polls (do_start memory buffer new_job)

copy_reaches : Reach memory buffer new_job copied
unfolding init
copy_reaches = next (next here (starts refl refl)) (handles polls)

copies : (copied.destination ≡ 1 ∷ 2 ∷ 3 ∷ []) × (copied.results ≡ 0 ∷ [])
unfolding init do_start poll handle when_connected
copies = (refl, refl)

success : reported_success copied ≡ true
unfolding init do_start poll handle when_connected
success = refl

Reach-Inv_example : Inv memory buffer copied
Reach-Inv_example =
    Reach-Inv memory buffer memory-laws buffer-laws
      (init-Inv memory buffer memory-laws buffer-laws (1 ∷ 2 ∷ 3 ∷ [], []) [] (pos 3) refl refl)
      copy_reaches

success_complete_example :
    ((memory.consumed copied.source) ≡ copied.destination)
    × (is_nonneg copied.size ≡ true → copied.size ≡ pos (length copied.destination))
success_complete_example =
    success_complete memory buffer memory-laws buffer-laws (1 ∷ 2 ∷ 3 ∷ [], []) [] (pos 3) refl refl
      copy_reaches success

copied_finished : copied.finished ≡ true
unfolding init do_start poll handle when_connected
copied_finished = refl

finished_final_example :
    ((handle memory buffer kills copied).results ≡ copied.results)
    × ((handle memory buffer kills copied).written ≡ copied.written)
    × ((handle memory buffer kills copied).source.1 ≡ copied.source.1)
    × ((handle memory buffer kills copied).destination ≡ copied.destination)
finished_final_example =
    finished_final memory buffer memory-laws buffer-laws kills copied copied_finished

-- A device whose reads fail.
abbrev broken : Source
broken = record memory { read = λ n s. (none, s) }

abbrev failing_job : CopyJob broken buffer
failing_job = init (1 ∷ [], []) [] (pos 1)

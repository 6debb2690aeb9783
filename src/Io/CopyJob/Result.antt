-- ===== src/Io/CopyJob/Result.antt =====
-- What the result of the CopyJob of pluginscommon/copyjob.cpp says about the bytes.
use harbour_sailfishconnect.Base.{
  ℕ, ◌-◌, ◌≡◌, refl, Bool, true, false, Option, none, some, List, [], ◌∷◌, arith, length,
  append-nil, contains, nat_eq, ℤ, pos, is_nonneg, eqb_ℤ, ◌∙◌, if_elim, if◌then◌else◌, sub_ℕ,
}
use harbour_sailfishconnect.Io.Device.{Source, Sink, SourceLaws, SinkLaws}
use harbour_sailfishconnect.Io.CopyJob.{
  Job, CopyJob, Flow, returned, continues, and_then, buffer_size, init, finish, read_done, fill,
  bytes_to_write, write_done, flush, request_poll, check_end, poll, poll_at_source_close, do_start,
  on_timeout, do_kill, expected_size,
}
use harbour_sailfishconnect.Io.CopyJob.Events.{
  Event, read_channel_finished, ready_read, bytes_written, about_to_close, disconnected, timeout,
  polls, kills, handle, Step, starts, handles, moves, Reach, here, next,
}
use harbour_sailfishconnect.Io.CopyJob.Transfer.{Reach-Inv, init-Inv, Holds}

-- emitResult() was called with error code 0.
abbrev pub reported_success : {S D : Type 0} → Job S D → Bool
reported_success j = contains j.results 0

module _ (src : Source) (snk : Sink) where
  -- A job that reported success has finished, with an empty buffer and as many bytes written as
  -- were expected.
  pub record Sound (j : CopyJob src snk) : Type 0 where
    pub final : reported_success j ≡ true → j.finished ≡ true
    pub emptied : reported_success j ≡ true → length j.buffer ≡ 0
    pub exact :
        reported_success j ≡ true → is_nonneg j.size ≡ true → eqb_ℤ j.size (pos j.written) ≡ true

  finish-Sound : (j : CopyJob src snk) → Sound j → Sound (finish src snk j)
  unfolding finish
  finish-Sound j v = ground arith

  -- What a slot may do to a job that has not finished: report errors, move bytes.
  abbrev Open : CopyJob src snk → Type 0
  Open j = (j.finished ≡ false) × (reported_success j ≡ false)

  Open-Sound : (j : CopyJob src snk) → Open j → Sound j
  Open-Sound j o = ground arith

  Sound-Open : (j : CopyJob src snk) → Sound j → j.finished ≡ false → Open j
  Sound-Open j v h = ground arith

  read_done-Open :
      (r : Option (List ℕ)) (s : src.State) (j : CopyJob src snk)
      → Open j
      → Holds Open (read_done src snk r s j)
  unfolding read_done
  read_done-Open none s j o = ground arith
  read_done-Open (some bytes) s j o = ground arith

  fill-Open : (j : CopyJob src snk) → Open j → Holds Open (fill src snk j)
  unfolding fill
  fill-Open j o = ground (
    arith,
    read_done-Open (src.read (buffer_size - length j.buffer) j.source).0
        (src.read (buffer_size - length j.buffer) j.source).1 j o,
  )

  write_done-Open :
      (r : Option ℕ) (d : snk.State) (j : CopyJob src snk)
      → Open j
      → Holds Open (write_done src snk r d j)
  unfolding write_done
  write_done-Open none d j o = ground arith
  write_done-Open (some n) d j o = ground arith

  flush-Open : (j : CopyJob src snk) → Open j → Holds Open (flush src snk j)
  unfolding flush
  flush-Open j o = ground (
    arith,
    write_done-Open (snk.write j.buffer j.destination).0 (snk.write j.buffer j.destination).1 j o,
  )

  check_end-Sound : (j : CopyJob src snk) → Open j → Sound (check_end src snk j)
  unfolding check_end
  check_end-Sound j o = ground (arith, finish-Sound j)

  request_poll-Open : (j : CopyJob src snk) → Open j → Open (request_poll src snk j)
  unfolding request_poll
  request_poll-Open j o = ground arith

  ends :
      (m : Flow (CopyJob src snk)) (f : CopyJob src snk → CopyJob src snk)
      → Holds Open m
      → ((j : CopyJob src snk) → Open j → Sound (f j))
      → Sound (and_then m f)
  ends (returned j) f o k = Open-Sound j o
  ends (continues j) f o k = k j o

  poll-Sound : (j : CopyJob src snk) → Sound j → Sound (poll src snk j)
  unfolding poll
  poll-Sound j v =
      if_elim Sound j.finished (λ _. v)
        λ h. ends (fill src snk j) _ (fill-Open j (Sound-Open j v h)) λ k ok.
          ends (flush src snk k) _ (flush-Open k ok)
            λ m om. check_end-Sound (request_poll src snk m) (request_poll-Open m om)

  do_start-Sound : (j : CopyJob src snk) → j.finished ≡ false → Sound j → Sound (do_start src snk j)
  unfolding do_start
  do_start-Sound j h v = ground (
    arith,
    poll-Sound
        (record j {
          source_eof = if src.is_sequential j.source then j.source_eof else true;
          ssl_socket = snk.is_ssl_socket j.destination;
          started = true;
          size = expected_size src snk j;
          total = some (expected_size src snk j);
        })
        (Open-Sound _ (Sound-Open j v h)),
  )

  poll_at_source_close-Sound :
      (j : CopyJob src snk) → Sound j → Sound (poll_at_source_close src snk j)
  unfolding poll_at_source_close
  poll_at_source_close-Sound j v = ground (arith, poll-Sound (record j { source_eof = true }))

  processed-Sound : (j : CopyJob src snk) (n : ℤ) → Sound j → Sound (record j { processed = n })
  processed-Sound j n v = record { final = v.final; emptied = v.emptied; exact = v.exact }

  on_timeout-Sound : (j : CopyJob src snk) → Sound j → Sound (on_timeout src snk j)
  unfolding on_timeout
  on_timeout-Sound j v =
      let w = processed-Sound j (sub_ℕ j.written (bytes_to_write src snk j)) v in
      if_elim Sound (snk.is_sequential j.destination) (λ _. poll-Sound _ w) (λ _. w)

  do_kill-Sound : (j : CopyJob src snk) → Sound j → Sound (do_kill src snk j)
  unfolding do_kill
  do_kill-Sound j v = ground (arith, finish-Sound (record j { source = src.close j.source }))

  handle-Sound : (e : Event) (j : CopyJob src snk) → Sound j → Sound (handle src snk e j)
  unfolding handle
  handle-Sound read_channel_finished j v = ground (arith, poll_at_source_close-Sound j v)
  handle-Sound ready_read j v = ground (arith, poll-Sound j v)
  handle-Sound bytes_written j v = ground (arith, poll-Sound j v)
  handle-Sound about_to_close j v = ground (arith, finish-Sound j v)
  handle-Sound disconnected j v = ground (arith, finish-Sound j v)
  handle-Sound timeout j v = ground (arith, on_timeout-Sound j v)
  handle-Sound polls j v = ground (arith, poll-Sound (record j { queued = j.queued - 1 }))
  handle-Sound kills j v = do_kill-Sound j v

  Step-Sound : {j k : CopyJob src snk} → Step src snk j k → Sound j → Sound k
  Step-Sound (starts _ h) v = do_start-Sound _ h v
  Step-Sound (handles e) v = handle-Sound e _ v
  Step-Sound (moves s d p q) v = record { final = v.final; emptied = v.emptied; exact = v.exact }

  Reach-Sound : {j k : CopyJob src snk} → Sound j → Reach src snk j k → Sound k
  Reach-Sound v here = v
  Reach-Sound v (next r st) = Step-Sound st (Reach-Sound v r)

  init-Sound : (s : src.State) (d : snk.State) (size : ℤ) → Sound (init s d size)
  unfolding init
  init-Sound s d size = ground arith

  nil_of_length : (xs : List ℕ) → length xs ≡ 0 → xs ≡ []
  nil_of_length [] h = refl
  nil_of_length (x ∷ xs) h = absurd (omega arith)

module _ (src : Source) (snk : Sink) (sl : SourceLaws src) (kl : SinkLaws snk) where
  -- Success means that the copy is complete. Take a job over devices that were not used before and
  -- any history of signals. If the job has reported error code 0, then the destination received
  -- exactly the bytes that were read from the source, in their order, and if the job's size is not
  -- negative, it is the number of these bytes.
  pub success_complete :
      (s : src.State) (d : snk.State) (size : ℤ) {j : CopyJob src snk}
      → src.consumed s ≡ []
      → snk.received d ≡ []
      → Reach src snk (init s d size) j
      → reported_success j ≡ true
      → (src.consumed j.source ≡ snk.received j.destination)
        × (is_nonneg j.size ≡ true → j.size ≡ pos (length (snk.received j.destination)))
  success_complete s d size {j} p q r h =
      let v = Reach-Inv src snk sl kl (init-Inv src snk sl kl s d size p q) r in
      let w = Reach-Sound src snk (init-Sound src snk s d size) r in
      (
        v.intact
            ∙ (rw (nil_of_length src snk j.buffer (w.emptied h))
                (append-nil (snk.received j.destination))),
        λ known. ground (arith, w.exact h known, v.counted),
      )

  -- A finished job is final: no signal makes it report again, and none makes it read or write.
  pub finished_final :
      (e : Event) (j : CopyJob src snk)
      → j.finished ≡ true
      → ((handle src snk e j).results ≡ j.results)
        × ((handle src snk e j).written ≡ j.written)
        × (src.consumed (handle src snk e j).source ≡ src.consumed j.source)
        × (snk.received (handle src snk e j).destination ≡ snk.received j.destination)
  unfolding handle poll_at_source_close on_timeout do_kill finish poll
  finished_final read_channel_finished j h = ground arith
  finished_final ready_read j h = ground arith
  finished_final bytes_written j h = ground arith
  finished_final about_to_close j h = ground arith
  finished_final disconnected j h = ground arith
  finished_final timeout j h = ground arith
  finished_final polls j h = ground arith
  finished_final kills j h = ground (arith, sl.close_keeps j.source, kl.close_keeps j.destination)

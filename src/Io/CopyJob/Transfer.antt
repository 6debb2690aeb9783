-- ===== src/Io/CopyJob/Transfer.antt =====
-- No byte is lost, doubled or reordered by the CopyJob of pluginscommon/copyjob.cpp.
use harbour_sailfishconnect.Base.{
  ℕ, ◌-◌, ◌≤◌, ◌≡◌, refl, true, Option, none, some, List, [], ◌++◌, arith, length, take, sub_ℕ,
  append_assoc, length-append, length-take, length-drop, take-append-drop, ℤ, if_elim,
  if◌then◌else◌,
}
use harbour_sailfishconnect.Io.Device.{Source, Sink, SourceLaws, SinkLaws}
use harbour_sailfishconnect.Io.CopyJob.{
  CopyJob, Flow, returned, continues, and_then, buffer_size, init, finish, read_done, fill,
  write_done, flush, request_poll, check_end, poll, poll_at_source_close, expected_size,
  bytes_to_write, do_start, on_timeout, do_kill,
}
use harbour_sailfishconnect.Io.CopyJob.Events.{
  Event, read_channel_finished, ready_read, bytes_written, about_to_close, disconnected, timeout,
  polls, kills, handle, Step, starts, handles, moves, Reach, here, next,
}

abbrev pub Holds {ℓ} : {J : Type 0} → (J → Type ℓ) → Flow J → Type ℓ
Holds P (returned j) = P j
Holds P (continues j) = P j

pub and_then-Holds {ℓ} :
    {J : Type 0} (P : J → Type ℓ) (m : Flow J) (f : J → J)
    → Holds P m
    → ((j : J) → P j → P (f j))
    → P (and_then m f)
and_then-Holds P (returned j) f h k = h
and_then-Holds P (continues j) f h k = k j h

module _ (src : Source) (snk : Sink) where
  -- What was read is what was written and then what the buffer holds; the count is the count of
  -- bytes written; the buffer is not overrun.
  pub record Inv (j : CopyJob src snk) : Type 0 where
    pub intact : src.consumed j.source ≡ snk.received j.destination ++ j.buffer
    pub counted : j.written ≡ length (snk.received j.destination)
    pub fits : length j.buffer ≤ buffer_size

module _ (src : Source) (snk : Sink) (sl : SourceLaws src) (kl : SinkLaws snk) where
  finish-Inv : (j : CopyJob src snk) → Inv src snk j → Inv src snk (finish src snk j)
  unfolding finish
  finish-Inv j v = ground (arith, sl.close_keeps j.source, kl.close_keeps j.destination)

  read_done-Inv :
      (r : Option (List ℕ)) (s : src.State) (j : CopyJob src snk)
      → src.read (buffer_size - length j.buffer) j.source ≡ (r, s)
      → Inv src snk j
      → Holds (Inv src snk) (read_done src snk r s j)
  unfolding read_done
  read_done-Inv none s j e v =
      ground (arith, sl.read_none (buffer_size - length j.buffer) j.source s e)
  read_done-Inv (some bytes) s j e v =
      let (short, now) = sl.read_some (buffer_size - length j.buffer) j.source s bytes e in
      record {
        intact = rw (now, v.intact) (append_assoc (snk.received j.destination) j.buffer bytes);
        counted = v.counted;
        fits = omega (arith, length-append j.buffer bytes, v.fits, short);
      }

  fill-Inv : (j : CopyJob src snk) → Inv src snk j → Holds (Inv src snk) (fill src snk j)
  unfolding fill
  fill-Inv j v = ground (
    arith,
    read_done-Inv (src.read (buffer_size - length j.buffer) j.source).0
        (src.read (buffer_size - length j.buffer) j.source).1 j refl v,
  )

  write_done-Inv :
      (r : Option ℕ) (d : snk.State) (j : CopyJob src snk)
      → snk.write j.buffer j.destination ≡ (r, d)
      → Inv src snk j
      → Holds (Inv src snk) (write_done src snk r d j)
  unfolding write_done
  write_done-Inv none d j e v = ground (arith, kl.write_none j.buffer j.destination d e)
  write_done-Inv (some n) d j e v =
      let (short, now) = kl.write_some j.buffer j.destination d n e in
      record {
        intact =
            rw (
              now,
              v.intact,
              append_assoc (snk.received j.destination),
              take-append-drop n j.buffer,
            );
        counted = rw now (
            omega (
              arith,
              v.counted,
              short,
              length-append (snk.received j.destination) (take n j.buffer),
              length-take n j.buffer,
            ));
        fits = omega (arith, length-drop n j.buffer, v.fits);
      }

  flush-Inv : (j : CopyJob src snk) → Inv src snk j → Holds (Inv src snk) (flush src snk j)
  unfolding flush
  flush-Inv j v = ground (
    arith,
    write_done-Inv (snk.write j.buffer j.destination).0 (snk.write j.buffer j.destination).1 j refl
        v,
  )

  check_end-Inv : (j : CopyJob src snk) → Inv src snk j → Inv src snk (check_end src snk j)
  unfolding check_end
  check_end-Inv j v = ground (arith, kl.disconnect_keeps j.destination, finish-Inv j v)

  request_poll-Inv : (j : CopyJob src snk) → Inv src snk j → Inv src snk (request_poll src snk j)
  unfolding request_poll
  request_poll-Inv j v = ground arith

  -- A poll keeps the bytes, whatever the devices answer: on every branch, errors included.
  pub poll-Inv : (j : CopyJob src snk) → Inv src snk j → Inv src snk (poll src snk j)
  unfolding poll
  poll-Inv j v =
      if_elim (Inv src snk) j.finished (λ _. v)
        λ _. and_then-Holds (Inv src snk) (fill src snk j) _ (fill-Inv j v) λ k vk.
          and_then-Holds (Inv src snk) (flush src snk k) _ (flush-Inv k vk)
            λ m vm. check_end-Inv (request_poll src snk m) (request_poll-Inv m vm)

  poll_at_source_close-Inv :
      (j : CopyJob src snk) → Inv src snk j → Inv src snk (poll_at_source_close src snk j)
  unfolding poll_at_source_close
  poll_at_source_close-Inv j v = ground (arith, poll-Inv (record j { source_eof = true }))

  restarted-Inv :
      (j : CopyJob src snk)
      → Inv src snk j
      → Inv src snk (record j {
        source_eof = if src.is_sequential j.source then j.source_eof else true;
        ssl_socket = snk.is_ssl_socket j.destination;
        started = true;
        size = expected_size src snk j;
        total = some (expected_size src snk j);
      })
  restarted-Inv j v = record { intact = v.intact; counted = v.counted; fits = v.fits }

  do_start-Inv : (j : CopyJob src snk) → Inv src snk j → Inv src snk (do_start src snk j)
  unfolding do_start
  do_start-Inv j v = ground (arith, poll-Inv _ (restarted-Inv j v))

  on_timeout-Inv : (j : CopyJob src snk) → Inv src snk j → Inv src snk (on_timeout src snk j)
  unfolding on_timeout
  on_timeout-Inv j v =
      ground (arith, poll-Inv (record j { processed = sub_ℕ j.written (bytes_to_write src snk j) }))

  do_kill-Inv : (j : CopyJob src snk) → Inv src snk j → Inv src snk (do_kill src snk j)
  unfolding do_kill
  do_kill-Inv j v = ground (
    arith,
    sl.close_keeps j.source,
    finish-Inv (record j { source = src.close j.source }),
    kl.close_keeps j.destination,
    kl.close_keeps (finish src snk (record j { source = src.close j.source })).destination,
  )

  handle-Inv : (e : Event) (j : CopyJob src snk) → Inv src snk j → Inv src snk (handle src snk e j)
  unfolding handle
  handle-Inv read_channel_finished j v = ground (arith, poll_at_source_close-Inv j v)
  handle-Inv ready_read j v = ground (arith, poll-Inv j v)
  handle-Inv bytes_written j v = ground (arith, poll-Inv j v)
  handle-Inv about_to_close j v = ground (arith, finish-Inv j v)
  handle-Inv disconnected j v = ground (arith, finish-Inv j v)
  handle-Inv timeout j v = ground (arith, on_timeout-Inv j v)
  handle-Inv polls j v = ground (arith, poll-Inv (record j { queued = j.queued - 1 }))
  handle-Inv kills j v = do_kill-Inv j v

  Step-Inv : {j k : CopyJob src snk} → Step src snk j k → Inv src snk j → Inv src snk k
  Step-Inv (starts _ _) v = do_start-Inv _ v
  Step-Inv (handles e) v = handle-Inv e _ v
  Step-Inv (moves s d p q) v = record {
    intact = rw (p, q) v.intact;
    counted = rw q v.counted;
    fits = v.fits;
  }

  -- Whatever signals arrive in whatever order, and whatever the devices answer: what the job has
  -- read from the source is, byte for byte and in order, what it has written to the destination
  -- followed by what its buffer holds; the count of written bytes is right; and the buffer holds
  -- at most 512 KiB. It holds of every state that a job can reach from one where it holds.
  pub Reach-Inv : {j k : CopyJob src snk} → Inv src snk j → Reach src snk j k → Inv src snk k
  Reach-Inv v here = v
  Reach-Inv v (next r st) = Step-Inv st (Reach-Inv v r)

  -- It holds of a new job over devices that were not used before.
  pub init-Inv :
      (s : src.State) (d : snk.State) (size : ℤ)
      → src.consumed s ≡ []
      → snk.received d ≡ []
      → Inv src snk (init s d size)
  unfolding init
  init-Inv s d size p q = record { intact = rw (p, q); counted = rw q; fits = omega arith }

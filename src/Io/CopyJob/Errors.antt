-- ===== src/Io/CopyJob/Errors.antt =====
-- The error paths of poll() in pluginscommon/copyjob.cpp.
use harbour_sailfishconnect.Base.{ℕ, zero, suc, ◌+◌, ◌<◌, ◌≡◌, false, ◌∷◌, length, nat_eq}
use harbour_sailfishconnect.Io.Device.{Source, Sink}
use harbour_sailfishconnect.Io.CopyJob.{
  CopyJob, read_error, and_then, buffer_size, max_pending, bytes_to_write, flush, request_poll,
  check_end, poll,
}

module _ (src : Source) (snk : Sink) where
  failed_read : CopyJob src snk → src.State → CopyJob src snk
  failed_read j s = record j {
    source = s;
    error = 2;
    error_text = read_error;
    results = 2 ∷ j.results;
  }

  after_fill : CopyJob src snk → CopyJob src snk
  after_fill k = and_then (flush src snk k) λ m. check_end src snk (request_poll src snk m)

  abbrev pub poll_times : ℕ → CopyJob src snk → CopyJob src snk
  poll_times zero j = j
  poll_times (suc n) j = poll_times n (poll src snk j)

  -- The job has room in its buffer and in the queue of its destination.
  pub record Reads (j : CopyJob src snk) : Type 0 where
    pub running : j.finished ≡ false
    pub room : length j.buffer < buffer_size
    pub pending : bytes_to_write src snk j < max_pending

  -- What many polls do to a job: one result each, and nothing else that can be seen.
  abbrev pub OnlyReports : ℕ → CopyJob src snk → CopyJob src snk → Type 0
  OnlyReports n j k =
      (length k.results ≡ n + length j.results)
      × (k.written ≡ j.written)
      × (k.finished ≡ false)
      × (k.timer ≡ j.timer)
      × (k.destination ≡ j.destination)

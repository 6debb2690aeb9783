-- ===== src/Io/CopyJob.antt =====
-- CopyJob of pluginscommon/copyjob.h and copyjob.cpp. A slot is a function from the job to the
-- job; the devices are parameters (Io/Device). KJob's part is written out: `results` holds the
-- error code of each emitResult(), the latest first.
pub mod Events
pub mod Transfer
pub mod Result
pub mod Errors
use harbour_sailfishconnect.Base.{
  ℕ, ◌+◌, ◌-◌, Bool, true, false, ◌&&◌, ◌||◌, not, Option, none, some, List, [], ◌∷◌, ◌++◌, length,
  drop, ltb, eqb, if◌then◌else◌, ℤ, pos, minus_one, is_nonneg, sub_ℕ, ltb_ℤ, eqb_ℤ,
}
use harbour_sailfishconnect.Io.Device.{Source, Sink}

-- std::array<char, 512 * 1024> m_buffer
abbrev pub buffer_size : ℕ
buffer_size = 524288

-- 2 * 1024 * 1024
abbrev pub max_pending : ℕ
max_pending = 2097152

pub data ErrorText : Type 0 where
  no_error not_readable not_writable read_error write_error : ErrorText
  early_end_of_output too_much_input early_end_of_input : ErrorText
  -- DownloadJob's
  no_folder not_opened : ErrorText

pub record Job (S D : Type 0) : Type 0 where
  pub source : S
  pub destination : D
  pub ssl_socket : Bool
  pub size : ℤ
  pub written : ℕ
  pub source_eof : Bool
  pub started : Bool
  pub finished : Bool
  pub timer : Bool
  -- the first m_bufferSize bytes of m_buffer
  pub buffer : List ℕ
  pub error : ℕ
  pub error_text : ErrorText
  pub total : Option ℤ
  pub processed : ℤ
  pub results : List ℕ
  -- polls that are queued in the event loop
  pub queued : ℕ

module _ {S D : Type 0} where
  unfoldable pub init : S → D → ℤ → Job S D
  init s d size = record {
    source = s;
    destination = d;
    ssl_socket = false;
    size = size;
    written = 0;
    source_eof = false;
    started = false;
    finished = false;
    timer = false;
    buffer = [];
    error = 0;
    error_text = no_error;
    total = none;
    processed = pos 0;
    results = [];
    queued = 0;
  }

  unfoldable pub set_error : ErrorText → Job S D → Job S D
  set_error text j = record j { error = 2; error_text = text }

  -- KJob::emitResult
  unfoldable pub emit_result : Job S D → Job S D
  emit_result j = record j { results = j.error ∷ j.results }

  -- error(), as a condition
  abbrev pub has_error : Job S D → Bool
  has_error j = not (eqb j.error 0)

  unfoldable pub set_destination : D → Job S D → Job S D
  set_destination d j = if j.started then j else record j { destination = d }

  unfoldable pub set_source : S → Job S D → Job S D
  set_source s j = if j.started then j else record j { source = s }

  -- The three tests of finish(): a later one overwrites the text of an earlier one.
  unfoldable pub check_buffer : Job S D → Job S D
  unfolding set_error
  check_buffer j = if eqb (length j.buffer) 0 then j else set_error early_end_of_output j

  unfoldable pub check_excess : Job S D → Job S D
  unfolding set_error
  check_excess j =
      if is_nonneg j.size && ltb_ℤ j.size (pos j.written) then set_error too_much_input j else j

  unfoldable pub check_missing : Job S D → Job S D
  unfolding set_error
  check_missing j =
      if is_nonneg j.size && ltb_ℤ (pos j.written) j.size then set_error early_end_of_input j else j

-- What a part of a slot did: it returned from the slot, or the slot goes on.
pub data Flow (J : Type 0) : Type 0 where
  returned : J → Flow J
  continues : J → Flow J

abbrev pub and_then : {J : Type 0} → Flow J → (J → J) → J
and_then (returned j) f = j
and_then (continues j) f = f j

module _ (src : Source) (snk : Sink) where
  abbrev pub CopyJob : Type 0
  CopyJob = Job src.State snk.State

  unfoldable pub bytes_to_write : CopyJob → ℕ
  bytes_to_write j =
      if j.ssl_socket
      then snk.bytes_to_write j.destination + snk.encrypted_bytes_to_write j.destination
      else snk.bytes_to_write j.destination

  unfoldable pub close_devices : CopyJob → CopyJob
  close_devices j = record j { source = src.close j.source; destination = snk.close j.destination }

  -- close() at the end emits aboutToClose, which calls finish() again: it returns at its first
  -- test, so close() is close_devices here.
  unfoldable pub finish : CopyJob → CopyJob
  unfolding check_buffer check_excess check_missing emit_result close_devices
  finish j =
      if j.finished
      then j
      else let stopped = record j { finished = true; timer = false; processed = pos j.written } in
        close_devices (emit_result (check_missing (check_excess (check_buffer stopped))))

  -- The first part of poll(): fill the buffer.
  unfoldable pub read_done : Option (List ℕ) → src.State → CopyJob → Flow CopyJob
  unfolding set_error emit_result
  read_done none s j = returned (emit_result (set_error read_error (record j { source = s })))
  read_done (some bytes) s j = continues (record j { source = s; buffer = j.buffer ++ bytes })

  unfoldable pub fill : CopyJob → Flow CopyJob
  unfolding read_done bytes_to_write
  fill j =
      if ltb (length j.buffer) buffer_size && ltb (bytes_to_write j) max_pending
      then (let (r, s) = src.read (buffer_size - length j.buffer) j.source in read_done r s j)
      else continues j

  -- The second part: write the buffer, and move the rest to its front.
  unfoldable pub write_done : Option ℕ → snk.State → CopyJob → Flow CopyJob
  unfolding set_error emit_result
  write_done none d j =
      returned (emit_result (set_error write_error (record j { destination = d })))
  write_done (some n) d j =
      continues (record j { destination = d; buffer = drop n j.buffer; written = j.written + n })

  unfoldable pub flush : CopyJob → Flow CopyJob
  unfolding write_done
  flush j =
      if eqb (length j.buffer) 0
      then continues j
      else let (r, d) = snk.write j.buffer j.destination in write_done r d j

  -- The third part: ask for another poll while there is something to read.
  unfoldable pub request_poll : CopyJob → CopyJob
  unfolding bytes_to_write
  request_poll j =
      if ltb 0 (src.bytes_available j.source)
        && not (eqb (length j.buffer) buffer_size)
        && ltb (bytes_to_write j) max_pending
      then record j { queued = j.queued + 1 }
      else j

  -- The last part: the end of the transfer.
  unfoldable pub at_end : CopyJob → Bool
  unfolding bytes_to_write
  at_end j =
      eqb (src.bytes_available j.source) 0
      && eqb (length j.buffer) 0
      && eqb (bytes_to_write j) 0
      && (j.source_eof || eqb_ℤ j.size (pos j.written))

  unfoldable pub check_end : CopyJob → CopyJob
  unfolding at_end finish
  check_end j =
      if at_end j
      then if j.ssl_socket
        then record j { destination = snk.disconnect_from_host j.destination }
        else finish j
      else j

  unfoldable pub poll : CopyJob → CopyJob
  unfolding fill flush request_poll check_end
  poll j =
      if j.finished
      then j
      else and_then (fill j) λ k. and_then (flush k) λ m. check_end (request_poll m)

  unfoldable pub poll_at_source_close : CopyJob → CopyJob
  unfolding poll
  poll_at_source_close j = if j.finished then j else poll (record j { source_eof = true })

  unfoldable pub expected_size : CopyJob → ℤ
  expected_size j =
      if is_nonneg j.size
      then j.size
      else if src.is_sequential j.source
      then minus_one
      else pos (src.size j.source)

  unfoldable pub do_start : CopyJob → CopyJob
  unfolding set_error emit_result expected_size poll
  do_start j =
      if not (src.is_open j.source && src.is_readable j.source)
      then emit_result (set_error not_readable j)
      else if not (snk.is_open j.destination && snk.is_writable j.destination)
      then emit_result (set_error not_writable j)
      else let running = record j {
        source_eof = if src.is_sequential j.source then j.source_eof else true;
        ssl_socket = snk.is_ssl_socket j.destination;
        started = true;
        size = expected_size j;
        total = some (expected_size j);
      } in
        let polled = poll running in record polled { timer = true }

  -- The slot of m_timer.
  unfoldable pub on_timeout : CopyJob → CopyJob
  unfolding poll bytes_to_write
  on_timeout j =
      let reported = record j { processed = sub_ℕ j.written (bytes_to_write j) } in
      if snk.is_sequential j.destination then poll reported else reported

  -- doKill() calls close(): the destination's aboutToClose calls finish() once it is connected.
  unfoldable pub do_kill : CopyJob → CopyJob
  unfolding finish
  do_kill j =
      let no_source = record j { source = src.close j.source } in
      let told = if j.started && snk.is_open j.destination then finish no_source else no_source in
      record told { destination = snk.close told.destination }

-- ===== src/Io/CopyJob/Events.antt =====
-- The event loop around a CopyJob: the signals that reach its slots, as the connections made by
-- doStart() in pluginscommon/copyjob.cpp let them through, and the world that changes the devices.
use harbour_sailfishconnect.Base.{◌-◌, ◌≡◌, Bool, true, false, ◌&&◌, not, ltb, if◌then◌else◌}
use harbour_sailfishconnect.Io.Device.{Source, Sink}
use harbour_sailfishconnect.Io.CopyJob.{
  CopyJob, finish, poll, poll_at_source_close, do_start, on_timeout, do_kill,
}

pub data Event : Type 0 where
  -- readChannelFinished and readyRead of the source
  read_channel_finished ready_read : Event
  -- bytesWritten and aboutToClose of the destination, disconnected of the socket
  bytes_written about_to_close disconnected : Event
  -- the timer, a queued poll, and KJob::kill
  timeout polls kills : Event

module _ (src : Source) (snk : Sink) where
  unfoldable pub when_connected :
      Bool → (CopyJob src snk → CopyJob src snk) → CopyJob src snk → CopyJob src snk
  when_connected c slot j = if j.started && c then slot j else j

  unfoldable pub handle : Event → CopyJob src snk → CopyJob src snk
  unfolding when_connected
  handle read_channel_finished j = when_connected true (poll_at_source_close src snk) j
  handle ready_read j =
      when_connected (src.is_sequential j.source && not (src.is_network_reply j.source))
        (poll src snk) j
  handle bytes_written j = when_connected (snk.is_sequential j.destination) (poll src snk) j
  handle about_to_close j = when_connected true (finish src snk) j
  handle disconnected j = when_connected j.ssl_socket (finish src snk) j
  handle timeout j = if j.timer then on_timeout src snk j else j
  handle polls j = if ltb 0 j.queued then poll src snk (record j { queued = j.queued - 1 }) else j
  handle kills j = do_kill src snk j

  -- A job is started once. The world moves the devices without reading from the one or writing
  -- to the other.
  pub data Step (j : CopyJob src snk) : CopyJob src snk → Type 0 where
    starts : j.started ≡ false → j.finished ≡ false → Step j (do_start src snk j)
    handles : (e : Event) → Step j (handle e j)
    moves :
        (s : src.State) (d : snk.State)
        → src.consumed s ≡ src.consumed j.source
        → snk.received d ≡ snk.received j.destination
        → Step j (record j { source = s; destination = d })

  pub data Reach (j : CopyJob src snk) : CopyJob src snk → Type 0 where
    here : Reach j j
    next : {k m : CopyJob src snk} → Reach j k → Step k m → Reach j m

-- ===== src/Plugins/Share/Received.antt =====
-- Where a received file goes in plugins/sf_share/shareplugin.cpp.
use harbour_sailfishconnect.Base.{
  suc, String, Bool, true, false, ◌≡◌, refl, ◌⊎◌, Option, some, List, [], ◌∷◌, length, contains,
  string_eq, ℤ,
}
use harbour_sailfishconnect.Base.Dict.{lookup}
use harbour_sailfishconnect.Plugins.Packet.{NetworkPacket}
use harbour_sailfishconnect.Io.Device.{Source, Sink}
use harbour_sailfishconnect.Io.FileHelper.{Numbers, NameParts, escape_for_file_path}
use harbour_sailfishconnect.Io.FileHelper.Escape.{IsSafe, escape_for_file_path-IsSafe}
use harbour_sailfishconnect.Io.DownloadJob.{Files, DownloadJob, create, do_start}
use harbour_sailfishconnect.Io.DownloadJob.Safety.{do_start-WritesFresh}
use harbour_sailfishconnect.Plugins.Share.{
  Desktop, SharePlugin, starts_job, text_of, flag_of, incoming_path, receive_file, receive_packet,
}

module _ (src : Source) (snk : Sink) (num : Numbers) (parts : NameParts) (qt : Desktop) where
  -- A file that a device sends, whatever name it gives to it, becomes one job. The job asks for a
  -- safe name in the directory for incoming files. When it starts, with the names taken in that
  -- directory all in a list and two more rounds of fuel than it has entries, it stays in the
  -- directory, removes nothing, and writes to no file or to one that did not exist.
  pub received_file_fresh :
      (null : snk.State) (np : NetworkPacket) (origin : src.State) (size : ℤ)
      (temporary : Option String) (p : SharePlugin) (fs : Files snk.State) (taken : List String)
      → ((name : String)
          → fs.exists (record { dir = incoming_path qt p; name = name }) ≡ true
          → contains taken name ≡ true)
      → (d : DownloadJob src snk) × (opening : Bool) × (receive_packet qt null np
            (some (origin, size))
            temporary
            p
          ≡ starts_job d opening ∷ [])
        × IsSafe d.destination.name
        × (e : DownloadJob src snk) × (do_start src snk num parts fs (suc (suc (length taken))) d
            ≡ some e)
        × (e.destination.dir ≡ incoming_path qt p)
        × (e.removed ≡ [])
        × ((e.written_to ≡ [])
            ⊎ ((fs.exists e.destination ≡ false) × (e.written_to ≡ e.destination ∷ [])))
  unfolding receive_packet receive_file create
  received_file_fresh null np origin size temporary p fs taken h =
      let name =
        escape_for_file_path qt.trimmed
          (text_of qt.conversions (lookup "filename" np.body) p.device_name) in
      let d = create origin null (record { dir = incoming_path qt p; name = name }) size in
      let (e, done, (dir, removed, fresh)) = do_start-WritesFresh src snk num parts fs d taken h in
      (
        d,
        flag_of qt.conversions (lookup "open" np.body),
        refl,
        escape_for_file_path-IsSafe qt.trimmed
            (text_of qt.conversions (lookup "filename" np.body) p.device_name),
        e,
        done,
        dir,
        removed,
        fresh,
      )

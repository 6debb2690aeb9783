-- ===== src/Tests/Share.antt =====
-- A device sends a file under the name of one that is there.
use harbour_sailfishconnect.Base.{
  ◌≡◌, ◌⊎◌, String, Bool, true, false, none, some, [], ◌∷◌, contains, string_eq, pos,
}
use harbour_sailfishconnect.Plugins.Packet.{NetworkPacket, text}
use harbour_sailfishconnect.Io.FileHelper.Escape.{IsSafe}
use harbour_sailfishconnect.Io.DownloadJob.{DownloadJob, do_start}
use harbour_sailfishconnect.Plugins.Share.{
  Desktop, SharePlugin, starts_job, incoming_path, receive_packet,
}
use harbour_sailfishconnect.Plugins.Share.Received.{received_file_fresh}
use harbour_sailfishconnect.Tests.Io.{memory, buffer}
use harbour_sailfishconnect.Tests.Names.{numbers, parts, files, only_a}

abbrev desktop : Desktop
desktop = record {
  download_path = "/d";
  has_placeholder = λ d. false;
  arg = λ d n. d;
  is_relative = λ d. false;
  absolute_path = λ d p. p;
  trimmed = λ s. s;
  url_text = λ u. u;
  is_local_file = λ u. true;
  local_file = λ u. u;
  file_name = λ u. u;
  file_size = λ f. none;
  conversions = record { to_text = λ v. ""; to_flag = λ v. false; to_number = λ v. pos 0 };
}

abbrev plugin : SharePlugin
plugin = record { device_name = "phone"; incoming = none }

abbrev packet : NetworkPacket
packet = record { kind = "kdeconnect.share.request"; body = ("filename", text "a") ∷ [] }

taken_there :
    (name : String)
    → files.exists (record { dir = incoming_path desktop plugin; name = name }) ≡ true
    → contains ("a" ∷ []) name ≡ true
taken_there name h = only_a name h

received_file_fresh_example :
    (d : DownloadJob memory buffer) × (opening : Bool) × (receive_packet desktop [] packet
        (some ((1 ∷ [], []), pos 1))
        none
        plugin
      ≡ starts_job d opening ∷ [])
    × IsSafe d.destination.name
    × (e : DownloadJob memory buffer) × (do_start memory buffer numbers parts files 3 d ≡ some e)
    × (e.destination.dir ≡ incoming_path desktop plugin)
    × (e.removed ≡ [])
    × ((e.written_to ≡ [])
        ⊎ ((files.exists e.destination ≡ false) × (e.written_to ≡ e.destination ∷ [])))
received_file_fresh_example =
    received_file_fresh memory buffer numbers parts desktop [] packet (1 ∷ [], []) (pos 1) none
      plugin files ("a" ∷ []) taken_there

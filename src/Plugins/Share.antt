-- ===== src/Plugins/Share.antt =====
-- plugins/sf_share/shareplugin.cpp. The plugin keeps no state: an operation returns what it does.
-- Directories, urls and temporary files are Qt's, so they are a parameter.
pub mod Received
use harbour_sailfishconnect.Base.{
  ℕ, String, Bool, true, false, not, Option, none, some, List, [], ◌∷◌, ◌++◌, if◌then◌else◌,
  string_eq, eqb, get_or, ℤ,
}
use harbour_sailfishconnect.Base.Dict.{Dict, lookup}
use harbour_sailfishconnect.Plugins.Packet.{Value, text, flag, Conversions, NetworkPacket}
use harbour_sailfishconnect.Io.FileHelper.{FilePath, escape_for_file_path}
use harbour_sailfishconnect.Io.DownloadJob.{Download, create}

pub record Desktop : Type 0 where
  pub download_path : String
  pub has_placeholder : String → Bool
  pub arg : String → String → String
  pub is_relative : String → Bool
  pub absolute_path : String → String → String
  pub trimmed : String → String
  pub url_text : String → String
  pub is_local_file : String → Bool
  pub local_file : String → String
  pub file_name : String → String
  pub file_size : String → Option ℕ
  pub conversions : Conversions

-- The device's name and the value of incoming_path in the plugin's configuration.
pub record SharePlugin : Type 0 where
  pub device_name : String
  pub incoming : Option String

pub data Action (S D : Type 0) : Type 0 where
  -- registerJob() and start() of a new job, whose end calls finished()
  starts_job : Download S D → Bool → Action S D
  stores_text : String → String → Action S D
  share_received : String → Action S D
  opens : String → Action S D
  -- a packet, and the file and its size if the packet has a payload
  sends : NetworkPacket → Option (String × ℕ) → Action S D
  reports_missing : String → Action S D

unfoldable pub text_of : Conversions → Option Value → String → String
text_of qv none d = d
text_of qv (some (text s)) d = s
text_of qv (some v) d = qv.to_text v

unfoldable pub flag_of : Conversions → Option Value → Bool
flag_of qv none = false
flag_of qv (some (flag b)) = b
flag_of qv (some v) = qv.to_flag v

module _ (qt : Desktop) where
  unfoldable pub incoming_path : SharePlugin → String
  incoming_path p =
      let dir = get_or p.incoming qt.download_path in
      if qt.has_placeholder dir
      then qt.arg dir p.device_name
      else if qt.is_relative dir
      then qt.absolute_path qt.download_path dir
      else dir

  module _ {S D : Type 0} (null : D) where
    -- The path incomingPath()/filename: its last part is the name, which has no slash.
    unfoldable pub receive_file : NetworkPacket → S → ℤ → SharePlugin → List (Action S D)
    unfolding incoming_path escape_for_file_path create text_of flag_of
    receive_file np origin size p =
        let filename =
          escape_for_file_path qt.trimmed
            (text_of qt.conversions (lookup "filename" np.body) p.device_name) in
        starts_job (create origin null (record { dir = incoming_path p; name = filename }) size)
          (flag_of qt.conversions (lookup "open" np.body))
        ∷ []

    -- The temporary file's name; `none` if it cannot be opened.
    unfoldable pub receive_text : Option String → String → List (Action S D)
    receive_text none content = []
    receive_text (some name) content =
        stores_text name content ∷ share_received name ∷ opens name ∷ []

    unfoldable pub receive_url : String → List (Action S D)
    receive_url url = opens url ∷ share_received (qt.url_text url) ∷ []

    -- A packet, its payload with the size, and the temporary file that a text would get.
    unfoldable pub receive_packet :
        NetworkPacket → Option (S × ℤ) → Option String → SharePlugin → List (Action S D)
    unfolding receive_file receive_text receive_url text_of
    receive_packet np (some (origin, size)) temporary p = receive_file np origin size p
    receive_packet np none temporary p = elim (lookup "text" np.body) [
      | some v ↦ receive_text temporary (text_of qt.conversions (some v) "")
      | none ↦ elim (lookup "url" np.body) [
        | some v ↦ receive_url (text_of qt.conversions (some v) "")
        | none ↦ []
      ]
    ]

  module _ {S D : Type 0} where
    unfoldable pub finished : ℕ → String → Bool → List (Action S D)
    finished error destination opening =
        if eqb error 0
        then share_received destination ∷ (if opening then opens destination ∷ [] else [])
        else []

    unfoldable pub share_file : String → Option ℕ → Bool → List (Action S D)
    share_file url none opening = reports_missing (qt.local_file url) ∷ []
    share_file url (some size) opening =
        sends
          (record {
            kind = "kdeconnect.share.request";
            body = ("filename", text (qt.file_name url)) ∷ ("open", flag opening) ∷ [];
          })
          (some (qt.local_file url, size))
        ∷ []

    unfoldable pub share_url : String → Bool → List (Action S D)
    unfolding share_file
    share_url url opening =
        if qt.is_local_file url
        then share_file url (qt.file_size (qt.local_file url)) opening
        else sends
            (record {
              kind = "kdeconnect.share.request";
              body = ("url", text (qt.url_text url)) ∷ [];
            })
            none
          ∷ []

    unfoldable pub share_urls : List String → List (Action S D)
    unfolding share_url
    share_urls [] = []
    share_urls (url ∷ urls) = share_url url false ++ share_urls urls

    unfoldable pub share_text : String → List (Action S D)
    share_text content =
        sends (record { kind = "kdeconnect.share.request"; body = ("text", text content) ∷ [] })
          none
        ∷ []

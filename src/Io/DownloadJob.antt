-- ===== src/Io/DownloadJob.antt =====
-- DownloadJob of pluginscommon/downloadjob.cpp: a CopyJob that opens its own destination. The file
-- system is Qt's (QDir, QFileInfo, QFile), so it is a parameter.
pub mod Safety
use harbour_sailfishconnect.Base.{
  ℕ, String, Bool, true, false, not, Option, none, some, List, [], ◌∷◌, if◌then◌else◌, ℤ,
}
use harbour_sailfishconnect.Io.Device.{Source, Sink}
use harbour_sailfishconnect.Io.CopyJob.{
  Job, ErrorText, no_folder, not_opened, init, set_destination,
}
use harbour_sailfishconnect.Io.CopyJob
use harbour_sailfishconnect.Io.FileHelper.{FilePath, Numbers, NameParts, nonexisting_file}

-- One state of the file system, as the calls of doStart() find it.
pub record Files (D : Type 0) : Type 0 where
  pub make_path : String → Bool
  pub exists : FilePath → Bool
  -- QFile::open for writing, which creates or truncates the file
  pub open_write : FilePath → Option D

pub record Download (S D : Type 0) : Type 0 where
  pub copy : Job S D
  pub destination : FilePath
  -- what it did to the file system, the latest first
  pub written_to : List FilePath
  pub removed : List FilePath
  -- description(this, i18n("Receiving"))
  pub described : Bool

module _ {S D : Type 0} where
  -- The CopyJob has a null destination until doStart().
  unfoldable pub create : S → D → FilePath → ℤ → Download S D
  create origin null destination size = record {
    copy = init origin null size;
    destination = destination;
    written_to = [];
    removed = [];
    described = false;
  }

  unfoldable pub fail : ErrorText → Download S D → Download S D
  fail text d = record d { copy = CopyJob.emit_result (CopyJob.set_error text d.copy) }

abbrev pub DownloadJob : Source → Sink → Type 0
DownloadJob src snk = Download src.State snk.State

module _ (src : Source) (snk : Sink) (num : Numbers) (parts : NameParts) where
  unfoldable pub choose : Files snk.State → ℕ → DownloadJob src snk → Option FilePath
  unfolding nonexisting_file
  choose fs fuel d =
      if fs.exists d.destination
      then nonexisting_file num parts fs.exists fuel d.destination
      else some d.destination

  unfoldable pub transfer : Option snk.State → DownloadJob src snk → DownloadJob src snk
  unfolding fail set_destination CopyJob.do_start
  transfer none d = fail not_opened d
  transfer (some file) d =
      let target = record d {
        copy = set_destination file d.copy;
        written_to = d.destination ∷ d.written_to;
        described = true;
      } in
      record target { copy = CopyJob.do_start src snk target.copy }

  unfoldable pub open_at :
      Files snk.State → DownloadJob src snk → Option FilePath → Option (DownloadJob src snk)
  unfolding transfer
  open_at fs d none = none
  open_at fs d (some path) = some (transfer (fs.open_write path) (record d { destination = path }))

  -- `none` means that the fuel of the search for a free name ran out.
  unfoldable pub do_start : Files snk.State → ℕ → DownloadJob src snk → Option (DownloadJob src snk)
  unfolding choose open_at fail
  do_start fs fuel d =
      if not (fs.make_path d.destination.dir)
      then some (fail no_folder d)
      else open_at fs d (choose fs fuel d)

  unfoldable pub do_kill : DownloadJob src snk → DownloadJob src snk
  unfolding CopyJob.do_kill
  do_kill d = record d {
    copy = CopyJob.do_kill src snk d.copy;
    removed = d.destination ∷ d.removed;
  }

  -- Nothing calls it: no connect() names it and it is no slot of KJob.
  unfoldable pub on_result : DownloadJob src snk → DownloadJob src snk
  on_result d =
      if CopyJob.has_error d.copy then record d { removed = d.destination ∷ d.removed } else d

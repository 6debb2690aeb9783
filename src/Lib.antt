-- ===== src/Lib.antt =====
-- Sailfish Connect: a client of the KDE Connect protocol for Sailfish OS. This library models the
-- parts of it that keep a state or decide something, each next to the theorems about it.
--
-- Base: the numbers, texts, lists and dictionaries that the other modules share.
--
-- Io: the transfer of files. Io/Device states what a job relies on of Qt's devices. Io/CopyJob is
-- CopyJob of pluginscommon/copyjob.cpp: `Job` holds its members, `do_start`, `poll`,
-- `poll_at_source_close`, `finish`, `on_timeout` and `do_kill` are its slots, and the parts of
-- poll() are `fill`, `flush`, `request_poll` and `check_end`. Io/CopyJob/Events is the event
-- loop: which signal reaches which slot, and the states that a job can reach. A queued call of
-- poll() is counted, so it may come at any later time. Io/FileHelper is
-- pluginscommon/filehelper.cpp and Io/DownloadJob is pluginscommon/downloadjob.cpp, which starts a
-- CopyJob at a free name.
--
-- Sftp: the server of plugins/sftpserver. Sftp/Types has the messages of libssh and the file system
-- as Qt shows it, Sftp/Attributes, Sftp/Commands and Sftp/Dispatch are sftpservercommands.cpp, one
-- function for each reply method, with readMessage() as `read_message`, and Sftp/Server is the
-- authorization and the channels of sftpserver.cpp.
--
-- Plugins: plugins/telephony/telephonyplugin.cpp, plugins/batteryreport/batteryreportplugin.cpp,
-- plugins/sf_clipboard/clipboardplugin.cpp, one plugin for each device and one clipboard for all,
-- and onNotify() with its helpers in
-- plugins/sf_sendnotifications/notificationslistener.cpp, with the reading of D-Bus messages in
-- Plugins/Notifications/Messages and the streams of notifyingapplication.cpp beside it. An operation returns the packets it
-- sends and the state after it. Plugins/Share is plugins/sf_share/shareplugin.cpp, whose operations
-- return what they do; the job that it makes for a received file is one of Io/DownloadJob.
-- Plugins/AlbumArt is plugins/sf_mprisremote/albumartcache.cpp: `AlbumArtCache` holds the cache's
-- members and its jobs, an `Event` is what reaches them, and Plugins/AlbumArt/Provider is the image
-- provider. Plugins/Mpris is mprisremoteplugin.cpp beside it, which calls the cache; its
-- receivePacket() is `receive_packet` of Plugins/Mpris/Receive.
--
-- App: app/src/io/jobmanager.cpp, the notifications of its jobs in
-- app/src/helper/jobsnotificator.cpp, app/src/models/stringlistmodel.cpp, the list of names in
-- app/src/models/mprisplayersmodel.cpp, the list of app/src/models/devicelistmodel.cpp in
-- App/Devices, app/src/models/sortfiltermodel.cpp in App/SortFilter and
-- app/src/helper/keyboardlayoutprovider.cpp in App/Keyboard. App/Models/Mirror connects the model of
-- players to the plugin of Plugins/Mpris. An operation returns the signals it emits and the state
-- after it.
--
-- Bounds and fuel: the buffer of a copy has 524288 bytes, the chunk of a directory 100 entries.
-- Bytes are numbers, and counts of bytes and handles are not bounded, but for the conversion of
-- amounts to qint64 in App/Jobs. The search for a free name runs on fuel: with n taken names in
-- the directory two rounds more than n are enough. The loop of a write runs on fuel: if a file
-- accepts a part of what it is given, one round more than there are bytes is enough. A keyboard
-- layout is read on fuel: one round more than its file has lines is enough when the last line has
-- a closing brace, and no fuel is enough when a key is not closed.
--
-- Parameters: devices, files and directories, the parts of file names, regular expressions, images,
-- variants and their conversions, streams, answers over D-Bus, the names of contacts and the clock are Qt's, libssh's or the
-- system's, so they are arguments.
--
-- Not modelled: contacts, which keep a state of their own; the socket code of the server; the user
-- interface, D-Bus wrappers and functions for QML, which only pass values on.
pub mod App
pub mod Base
pub mod Io
pub mod Plugins
pub mod Sftp
pub mod Tests

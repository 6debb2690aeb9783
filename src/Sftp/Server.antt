-- ===== src/Sftp/Server.antt =====
-- SshServer, SftpServerChannel and SshServerSession of plugins/sftpserver/sftpserver.cpp. An
-- ssh_channel is a pointer, a number here; a failing Q_ASSERT is `none`.
pub mod Authorization
pub mod Channels
use harbour_sailfishconnect.Base.{
  ℕ, suc, String, Bool, true, false, ◌&&◌, ◌≡◌, Option, none, some, List, [], ◌∷◌, ◌++◌, get_elem?,
  set, remove_at, eqb, if◌then◌else◌, ◌==◌, string_eq, ℤ, pos, ◌-ℤ◌, eqb_ℤ,
}

pub record SshServer : Type 0 where
  pub user : String
  pub password : String
  pub password_tries : ℤ

unfoldable pub check_password : SshServer → String → String → Bool
check_password server user password = server.user == user && server.password == password

pub record Channel : Type 0 where
  pub pointer : ℕ
  pub has_sftp_session : Bool
  pub inited : Bool

pub record SshServerSession : Type 0 where
  pub channels : List Channel
  pub left_tries : ℤ
  pub connected : Bool
  pub authenticated : Bool

unfoldable pub new_session : SshServer → SshServerSession
new_session server = record {
  channels = [];
  left_tries = server.password_tries;
  connected = true;
  authenticated = false;
}

pub data Auth : Type 0 where
  success denied : Auth

unfoldable pub disconnect : SshServerSession → SshServerSession
disconnect s = record s { connected = false }

-- What authorizeWithPassword() does after a wrong password.
unfoldable pub wrong_password : SshServerSession → Auth × SshServerSession
unfolding disconnect
wrong_password s =
    let t = record s { left_tries = s.left_tries -ℤ pos 1 } in
    if eqb_ℤ t.left_tries (pos 0) then (denied, disconnect t) else (denied, t)

unfoldable pub authorize_with_password :
    SshServer → String → String → SshServerSession → Auth × SshServerSession
authorize_with_password server user password s =
    if check_password server user password
    then (success, record s { authenticated = true })
    else wrong_password s

unfoldable pub create_channel : ℕ → SshServerSession → SshServerSession
create_channel channel s = record s {
  channels =
      s.channels ++ record { pointer = channel; has_sftp_session = false; inited = false } ∷ [];
}

-- getChannelIndex(); `none` is -1.
unfoldable pub get_channel_index : ℕ → List Channel → Option ℕ
get_channel_index channel [] = none
get_channel_index channel (c ∷ cs) =
    if eqb c.pointer channel
    then some 0
    else elim (get_channel_index channel cs) [ none ↦ none | some i ↦ some (suc i) ]

unfoldable pub close_channel : ℕ → SshServerSession → Option SshServerSession
unfolding get_channel_index
close_channel channel s = elim (get_channel_index channel s.channels) [
  | none ↦ none
  | some i ↦ some (record s { channels = remove_at s.channels i })
]

-- createSftpSession() asserts that there is none yet.
unfoldable pub create_sftp_session : Channel → Option Channel
create_sftp_session c =
    if c.has_sftp_session then none else some (record c { has_sftp_session = true })

unfoldable pub start_at : ℕ → Option Channel → SshServerSession → Option SshServerSession
unfolding create_sftp_session
start_at i none s = none
start_at i (some c) s = elim (create_sftp_session c) [
  | none ↦ none
  | some d ↦ some (record s { channels = set s.channels i d })
]

unfoldable pub start_sftp_session : ℕ → SshServerSession → Option SshServerSession
unfolding get_channel_index start_at
start_sftp_session channel s = elim (get_channel_index channel s.channels) [
  | none ↦ none
  | some i ↦ start_at i (get_elem? s.channels i) s
]

-- The callback of a subsystem request, which answers SSH_OK in each case.
unfoldable pub subsystem_request : ℕ → String → SshServerSession → Option SshServerSession
unfolding start_sftp_session
subsystem_request channel subsystem s =
    if subsystem == "sftp" then start_sftp_session channel s else some s

unfoldable pub has_sftp_channel : SshServerSession → Bool
has_sftp_channel s = elim s.channels [ [] ↦ false | c ∷ cs ↦ c.has_sftp_session ]

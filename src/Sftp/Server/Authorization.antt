-- ===== src/Sftp/Server/Authorization.antt =====
-- The limit on wrong passwords in plugins/sftpserver/sftpserver.cpp.
use harbour_sailfishconnect.Base.{◌≡◌, String, false, List, [], ◌∷◌}
use harbour_sailfishconnect.Sftp.Server.{
  SshServer, SshServerSession, check_password, authorize_with_password,
}

-- A client's attempts, one after the other.
abbrev pub attempts : SshServer → List (String × String) → SshServerSession → SshServerSession
attempts server [] s = s
attempts server ((user, password) ∷ more) s =
    attempts server more (authorize_with_password server user password s).1

abbrev pub IsWrong : SshServer → String × String → Type 0
IsWrong server (user, password) = check_password server user password ≡ false

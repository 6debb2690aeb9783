-- ===== src/Tests/Server.antt =====
-- A server that gets wrong passwords, and a channel that is closed twice.
use harbour_sailfishconnect.Base.{◌≡◌, refl, none, some, pos, nat_eq, string_eq}
use harbour_sailfishconnect.Sftp.Server.{
  SshServer, SshServerSession, new_session, create_channel, close_channel, get_channel_index,
}
use harbour_sailfishconnect.Sftp.Server.Channels.{Distinct, close_twice_faults}

abbrev server : SshServer
server = record { user = "u"; password = "p"; password_tries = pos 2 }

abbrev one_channel : SshServerSession
one_channel = create_channel 4 (new_session server)

first_close : close_channel 4 one_channel ≡ some (new_session server)
unfolding close_channel create_channel new_session get_channel_index
first_close = refl

one-Distinct : Distinct one_channel.channels
unfolding create_channel new_session get_channel_index
one-Distinct = (refl, tt)

close_twice_faults_example : close_channel 4 (new_session server) ≡ none
close_twice_faults_example =
    close_twice_faults 4 one_channel (new_session server) one-Distinct first_close

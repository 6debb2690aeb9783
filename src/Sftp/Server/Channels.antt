-- ===== src/Sftp/Server/Channels.antt =====
-- The channels of a session in plugins/sftpserver/sftpserver.cpp.
use harbour_sailfishconnect.Base.{
  ℕ, zero, suc, ◌≡◌, none, some, List, [], ◌∷◌, remove_at, arith, get_or,
}
use harbour_sailfishconnect.Sftp.Server.{
  Channel, SshServerSession, get_channel_index, close_channel,
}

-- No two channels are the same pointer.
abbrev pub Distinct : List Channel → Type 0
Distinct [] = Unit
Distinct (c ∷ cs) = (get_channel_index c.pointer cs ≡ none) × Distinct cs

index-remove :
    (p i : ℕ) (cs : List Channel)
    → Distinct cs
    → get_channel_index p cs ≡ some i
    → get_channel_index p (remove_at cs i) ≡ none
unfolding get_channel_index
index-remove p i [] d h = cc
index-remove p zero (c ∷ cs) d h = ground arith
index-remove p (suc i) (c ∷ cs) (d, ds) h = ground (arith, index-remove p i cs ds)

-- The callbacks for the end of file and for the close of a channel are both close_channel. A
-- client that sends both makes the second call fail its assertion: once a channel was closed, to
-- close it again is a fault.
pub close_twice_faults :
    (p : ℕ) (s t : SshServerSession)
    → Distinct s.channels
    → close_channel p s ≡ some t
    → close_channel p t ≡ none
unfolding close_channel
close_twice_faults p s t d h =
    ground (arith, index-remove p (get_or (get_channel_index p s.channels) 0) s.channels d)

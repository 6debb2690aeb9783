-- ===== src/Io/Device.antt =====
-- QIODevice, which Qt implements: what pluginscommon/copyjob.cpp relies on, as an interface. The
-- last field of each record is the history of the device, all bytes that were read from it or
-- that it accepted; the laws are the documented behaviour of QIODevice::read and ::write.
use harbour_sailfishconnect.Base.{ℕ, ◌≤◌, ◌≡◌, Bool, Option, none, some, List, ◌++◌, length, take}

pub record Source : Type 1 where
  pub State : Type 0
  pub is_open : State → Bool
  pub is_readable : State → Bool
  pub is_sequential : State → Bool
  pub is_network_reply : State → Bool
  pub size : State → ℕ
  pub bytes_available : State → ℕ
  -- `none` is the return value -1
  pub read : ℕ → State → Option (List ℕ) × State
  pub close : State → State
  pub consumed : State → List ℕ

pub record Sink : Type 1 where
  pub State : Type 0
  pub is_open : State → Bool
  pub is_writable : State → Bool
  pub is_sequential : State → Bool
  pub is_ssl_socket : State → Bool
  pub bytes_to_write : State → ℕ
  pub encrypted_bytes_to_write : State → ℕ
  -- `none` is the return value -1
  pub write : List ℕ → State → Option ℕ × State
  pub disconnect_from_host : State → State
  pub close : State → State
  pub received : State → List ℕ

-- A read returns at most as many bytes as are asked for, and an error returns none.
pub record SourceLaws (src : Source) : Type 0 where
  pub read_some :
      (n : ℕ) (s s' : src.State) (bytes : List ℕ)
      → src.read n s ≡ (some bytes, s')
      → (length bytes ≤ n) × (src.consumed s' ≡ src.consumed s ++ bytes)
  pub read_none :
      (n : ℕ) (s s' : src.State) → src.read n s ≡ (none, s') → src.consumed s' ≡ src.consumed s
  pub close_keeps : (s : src.State) → src.consumed (src.close s) ≡ src.consumed s

-- A write accepts a prefix of what it is given, and an error accepts nothing.
pub record SinkLaws (snk : Sink) : Type 0 where
  pub write_some :
      (bytes : List ℕ) (d d' : snk.State) (n : ℕ)
      → snk.write bytes d ≡ (some n, d')
      → (n ≤ length bytes) × (snk.received d' ≡ snk.received d ++ take n bytes)
  pub write_none :
      (bytes : List ℕ) (d d' : snk.State)
      → snk.write bytes d ≡ (none, d')
      → snk.received d' ≡ snk.received d
  pub close_keeps : (d : snk.State) → snk.received (snk.close d) ≡ snk.received d
  pub disconnect_keeps :
      (d : snk.State) → snk.received (snk.disconnect_from_host d) ≡ snk.received d

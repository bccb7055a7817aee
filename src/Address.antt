-- ===== src/Address.antt =====
-- Source/Server/ConnectionContext.hpp: the addresses of both kinds of sockets.
use marisa.Prelude.{Bool, true, false, Bytes}

-- boost::asio::ip::address, which is what it answers.
pub record IpAddress : Type 0 where
  pub text : Bytes
  pub loopback : Bool
  pub v4 : Bool
  pub v6 : Bool

pub data Address : Type 0 where
  address_tcp : IpAddress → Address
  address_unix : Bytes → Address

abbrev pub to_string : Address → Bytes
to_string (address_tcp baddr) = baddr.text
to_string (address_unix baddr) = baddr

abbrev pub is_loopback : Address → Bool
is_loopback (address_tcp baddr) = baddr.loopback
is_loopback (address_unix baddr) = false

abbrev pub is_v4 : Address → Bool
is_v4 (address_tcp baddr) = baddr.v4
is_v4 (address_unix baddr) = false

abbrev pub is_v6 : Address → Bool
is_v6 (address_tcp baddr) = baddr.v6
is_v6 (address_unix baddr) = false

abbrev pub is_unix : Address → Bool
is_unix (address_tcp baddr) = false
is_unix (address_unix baddr) = true

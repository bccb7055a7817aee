-- ===== src/Endpoints.antt =====
-- Source/Server/ConnectionContext.hpp: the endpoints and the sockets of connections. asio may have no
-- endpoint, if the other side is gone already, and throws then.
use marisa.Prelude.{
  ℕ, Bool, true, false, Option, none, some, Bytes, Result, ok, raise, system_error, ◌>>=◌,
}
use marisa.Address.{IpAddress, Address, address_tcp, address_unix}

-- An endpoint of TCP, as asio has it.
pub record IpEndpoint : Type 0 where
  pub ip_address : IpAddress
  pub ip_port : ℕ

pub record Endpoint : Type 0 where
  pub address : Address
  pub port : ℕ

abbrev pub endpoint_tcp : IpEndpoint → Endpoint
endpoint_tcp bep = record { address = address_tcp bep.ip_address; port = bep.ip_port }

abbrev pub endpoint_unix : (path : Bytes) → Endpoint
endpoint_unix path = record { address = address_unix path; port = 0 }

pub data Socket : Type 0 where
  tcp_socket unix_socket : (remote local : Endpoint) → Socket

abbrev pub remote_endpoint : Socket → Endpoint
remote_endpoint (tcp_socket remote local) = remote
remote_endpoint (unix_socket remote local) = remote

abbrev pub local_endpoint : Socket → Endpoint
local_endpoint (tcp_socket remote local) = local
local_endpoint (unix_socket remote local) = local

-- Both classes answer the same.
abbrev pub is_tcp : Socket → Bool
is_tcp (tcp_socket remote local) = true
is_tcp (unix_socket remote local) = true

abbrev pub is_unix : Socket → Bool
is_unix (tcp_socket remote local) = false
is_unix (unix_socket remote local) = false

-- An endpoint of asio, or the exception.
abbrev endpoint_of {ℓ} : {A : Type ℓ} → Option A → Result A
endpoint_of none = raise system_error
endpoint_of (some a) = ok a

-- The constructors ask for both endpoints, the remote one first.
unfoldable pub new_socket_tcp : (remote local : Option IpEndpoint) → Result Socket
new_socket_tcp remote local = do
  r ← endpoint_of remote
  l ← endpoint_of local
  ok (tcp_socket (endpoint_tcp r) (endpoint_tcp l))

unfoldable pub new_socket_unix : (remote local : Option Bytes) → Result Socket
new_socket_unix remote local = do
  r ← endpoint_of remote
  l ← endpoint_of local
  ok (unix_socket (endpoint_unix r) (endpoint_unix l))

-- ===== src/Addr.antt =====
-- source/tftpAddr.h and source/tftpAddr.cpp: class `Addr`, the bytes of a socket address. The family
-- stands in host order, which is little-endian on the targets of the Makefile; the port stands in
-- network order.
pub mod Fields
pub mod Text
pub mod Parse
pub mod Dotted
pub mod RoundTrip
pub mod Brackets
pub mod RoundTripSix
use server_fw.Prelude.{
  ℕ, ◌+◌, ◌%◌, ◌^◌, Bool, true, false, [], ◌∷◌, length, take, slice, put, replicate, min, ◌==◌,
  if◌then◌else◌,
}
use server_fw.Prelude.Text.{Bytes, text_eq}
use server_fw.SmBuf.{le_value, be_value, to_le, to_be}

abbrev pub max_sockaddr_size : ℕ
max_sockaddr_size = 30

abbrev pub af_inet : ℕ
af_inet = 2

abbrev pub af_inet6 : ℕ
af_inet6 = 10

-- `sizeof(struct sockaddr_in)` and `sizeof(struct sockaddr_in6)`
abbrev pub sockaddr_in_size : ℕ
sockaddr_in_size = 16

abbrev pub sockaddr_in6_size : ℕ
sockaddr_in6_size = 28

pub record Addr : Type 0 where
  pub bytes : Bytes
  pub data_size : ℕ

-- The constructor, and `clear`.
unfoldable pub clear : Addr
clear = record { bytes = replicate max_sockaddr_size 0; data_size = 0 }

unfoldable pub family : Addr → ℕ
family a = le_value (slice a.bytes 0 2)

unfoldable pub port : Addr → ℕ
port a = be_value (slice a.bytes 2 2)

-- The caller's data, `new_size` bytes of it; a null pointer is no call.
unfoldable pub assign : Addr → Bytes → Addr
assign a given = record {
  bytes = put a.bytes 0 (take max_sockaddr_size given);
  data_size = min max_sockaddr_size (length given);
}

-- The references of `as_in` and `as_in6` set the size.
abbrev pub as_in : Addr → Addr
as_in a = record a { data_size = sockaddr_in_size }

abbrev pub as_in6 : Addr → Addr
as_in6 a = record a { data_size = sockaddr_in6_size }

unfoldable pub set_family : Addr → ℕ → Addr
set_family a new_family = record {
  bytes = put a.bytes 0 (to_le 2 new_family);
  data_size =
      (if new_family == af_inet
        then sockaddr_in_size
        else if new_family == af_inet6
        then sockaddr_in6_size
        else 0);
}

-- `set_port` of an integer, cast to 16 bits.
unfoldable pub set_port : Addr → ℕ → Addr
set_port a new_port = record a { bytes = put a.bytes 2 (to_be 2 (new_port % 2 ^ 16)) }

-- The four bytes of an `in_addr`, and the sixteen of an `in6_addr`.
unfoldable pub set_addr_in : Addr → Bytes → Addr
unfolding set_family
set_addr_in a adr =
    let a' = as_in (set_family a af_inet) in record a' { bytes = put a'.bytes 4 adr }

unfoldable pub set_addr_in6 : Addr → Bytes → Addr
unfolding set_family
set_addr_in6 a adr =
    let a' = as_in6 (set_family a af_inet6) in record a' { bytes = put a'.bytes 8 adr }

-- `==` of the arrays; the sizes are not compared.
unfoldable pub same_addr : Addr → Addr → Bool
same_addr a b = text_eq a.bytes b.bytes

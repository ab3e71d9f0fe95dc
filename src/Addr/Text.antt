-- ===== src/Addr/Text.antt =====
-- source/tftpAddr.cpp: the conversions between an address and text, and source/tftpCommon.cpp:
-- `sockaddr_to_str`. The functions `inet_pton` and `inet_ntop` of the C library are a parameter.
use server_fw.Prelude.{
  ℕ, Bool, true, false, [], ◌++◌, length, slice, put, ltb, ◌==◌, if◌then◌else◌, Option, none, some,
  ok, err,
}
use server_fw.Prelude.Text.{Bytes, codes}
use server_fw.Common.Strings.Decimal.{to_string}
use server_fw.Common.Strings.Numbers.{stoul}
use server_fw.SmBuf.{le_value, be_value, until_zero}
use server_fw.Addr.{
  Addr, af_inet, af_inet6, sockaddr_in_size, sockaddr_in6_size, as_in, as_in6, family, port,
  set_family, set_port, set_addr_in,
}

-- Text to an address, `none` where the result is not positive, and an address to text; of IPv4 and
-- of IPv6.
pub record Inet : Type 0 where
  pub pton4 : Bytes → Option Bytes
  pub pton6 : Bytes → Option Bytes
  pub ntop4 : Bytes → Bytes
  pub ntop6 : Bytes → Bytes

abbrev pub unknown_addr : Bytes
unknown_addr = codes "???"

abbrev with_port4 : Bytes → ℕ → Bytes
with_port4 txt port = txt ++ (codes ":" ++ to_string port)

abbrev with_port6 : Bytes → ℕ → Bytes
with_port6 txt port = codes "[" ++ (txt ++ (codes "]:" ++ to_string port))

unfoldable pub str : Inet → Addr → Bytes
str net a =
    if family a == af_inet
    then with_port4 (net.ntop4 (slice a.bytes 4 4)) (port a)
    else if family a == af_inet6
    then with_port6 (net.ntop6 (slice a.bytes 8 16)) (port a)
    else unknown_addr

-- `sockaddr_to_str` of the bytes between the two iterators.
unfoldable pub sockaddr_to_str : Inet → Bytes → Bytes
sockaddr_to_str net addr =
    let curr_family = le_value (slice addr 0 2) in
    let sin_port = be_value (slice addr 2 2) in
    if ltb (length addr) 2
    then []
    else if curr_family == af_inet
    then (if ltb (length addr) sockaddr_in_size
        then []
        else with_port4 (net.ntop4 (slice addr 4 4)) sin_port)
    else if curr_family == af_inet6
    then (if ltb (length addr) sockaddr_in6_size
        then []
        else with_port6 (net.ntop6 (slice addr 8 16)) sin_port)
    else []

-- A call that fails leaves the address; `as_in` has set the size by then.
abbrev placed : Addr → ℕ → Option Bytes → Bool × Addr
placed a offset none = (false, a)
placed a offset (some adr) = (true, record a { bytes = put a.bytes offset adr })

unfoldable pub set_addr_str : Inet → Addr → Bytes → Bool × Addr
set_addr_str net a adr =
    if family a == af_inet
    then placed (as_in a) 4 (net.pton4 (until_zero adr))
    else if family a == af_inet6
    then placed (as_in6 a) 8 (net.pton6 (until_zero adr))
    else (false, a)

unfoldable pub set_port_str : Addr → Bytes → Bool × Addr
set_port_str a adr = elim (stoul adr) [
  | err _ ↦ (false, a)
  | ok new_port ↦ (true, set_port a new_port)
]

-- `set_addr` of a `sockaddr_in`, with its port in host order.
unfoldable pub set_addr : Addr → ℕ → ℕ → Bytes → Addr
set_addr a sin_family sin_port sin_addr =
    set_addr_in (set_port (set_family a sin_family) sin_port) sin_addr

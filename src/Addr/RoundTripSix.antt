-- ===== src/Addr/RoundTripSix.antt =====
-- source/tftpAddr.cpp: what `set_string` reads from the text that `str` gives of an IPv6 address.
use server_fw.Prelude.{
  ℕ, ◌^◌, ◌<◌, ◌≡◌, ◌≢◌, refl, ap, ◌∙◌, subst, arith, true, [], ◌∷◌, ◌++◌, length, slice, slice-put,
  length-put, put, some,
}
use server_fw.Prelude.Text.{Bytes, NoZero}
use server_fw.Common.Strings.{is_digit}
use server_fw.Common.Strings.Decimal.{to_string}
use server_fw.SmBuf.Texts.{until_zero-NoZero}
use server_fw.Addr.{
  Addr, max_sockaddr_size, af_inet6, sockaddr_in6_size, family, port, set_family, set_port,
}
use server_fw.Addr.Fields.{IsAddr}
use server_fw.Addr.Text.{Inet, str, set_addr_str}
use server_fw.Addr.Parse.{is_port_text, set_string}
use server_fw.Addr.Dotted.{to_string-IsNumber}
use server_fw.Addr.RoundTrip.{set_port_str-to_string, set_parts_lem, to_string-length}
use server_fw.Addr.Brackets.{IsHex, set_string_brackets}

-- The C library prints the address as text that has hexadecimal digits and colons alone, and reads
-- this text back.
pub record Knows6 (net : Inet) (adr : Bytes) : Type 0 where
  pub hex : IsHex (net.ntop6 adr)
  pub some_text : 0 < length (net.ntop6 adr)
  pub parsed : net.pton6 (net.ntop6 adr) ≡ some adr

-- An IPv6 address with its port.
pub record IsIn6 (x : Addr) (adr : Bytes) (p : ℕ) : Type 0 where
  pub kind : family x ≡ af_inet6
  pub address : slice x.bytes 8 16 ≡ adr
  pub numbered : port x ≡ p
  pub size : x.data_size ≡ sockaddr_in6_size

NoZero-IsHex : (s : Bytes) → IsHex s → NoZero s
unfolding is_digit
NoZero-IsHex [] h = tt
NoZero-IsHex (c ∷ cs) h = (ground (arith, h.0), NoZero-IsHex cs h.1)

port_text : (p : ℕ) → p < 2 ^ 16 → is_port_text (to_string p) ≡ true
port_text p h =
    let v = to_string-IsNumber 4 p (omega arith) in ground (arith, v.digits, v.some_digit, v.few)

placed_fields :
    (bytes : Bytes) (n : ℕ) (adr : Bytes) (p : ℕ)
    → length bytes ≡ max_sockaddr_size
    → length adr ≡ 16
    → p < 2 ^ 16
    → let x : Addr = set_port (set_family (record { bytes = bytes; data_size = n }) af_inet6) p in
      (family x ≡ af_inet6)
      × IsIn6 (record { bytes = put x.bytes 8 adr; data_size = sockaddr_in6_size }) adr p
unfolding port family set_port set_family
placed_fields (x0 ∷ (x1 ∷ (x2 ∷ (x3 ∷ xs)))) n adr p h k q = (
  refl,
  record {
    kind = refl;
    address =
        subst (λ (count : ℕ). slice (put (put xs 0 []) 4 adr) 4 count ≡ adr) k
          (slice-put (put xs 0 []) 4 adr (omega (arith, h, k, length-put xs 0 [])));
    numbered = omega arith;
    size = refl;
  },
)
placed_fields (x0 ∷ (x1 ∷ (x2 ∷ []))) n adr p h k q = absurd (omega arith)
placed_fields (x0 ∷ (x1 ∷ [])) n adr p h k q = absurd (omega arith)
placed_fields (x0 ∷ []) n adr p h k q = absurd (omega arith)
placed_fields [] n adr p h k q = absurd (omega arith)

set_addr_str-parsed :
    (net : Inet) (x : Addr) (adr : Bytes)
    → Knows6 net adr
    → family x ≡ af_inet6
    → set_addr_str net x (net.ntop6 adr)
      ≡ (true, record { bytes = put x.bytes 8 adr; data_size = sockaddr_in6_size })
unfolding set_addr_str
set_addr_str-parsed net x adr k f =
    ground
      (arith, f, until_zero-NoZero (net.ntop6 adr) (NoZero-IsHex (net.ntop6 adr) k.hex), k.parsed)

str-IsIn6 :
    (net : Inet) (x : Addr) (adr : Bytes) (p : ℕ)
    → IsIn6 x adr p
    → str net x ≡ b'[' ∷ (net.ntop6 adr ++ (b']' ∷ (b':' ∷ to_string p)))
unfolding str
str-IsIn6 net x adr p v = ground (arith, v.kind, v.address, v.numbered)

cons≢nil : (s : Bytes) → 0 < length s → s ≢ []
cons≢nil s h e = absurd (omega (arith, ap length e))

-- An IPv6 address and its port survive the way through text as well, if the C library prints the
-- address with hexadecimal digits and colons alone, which it does not for one that maps an IPv4
-- address.
pub set_string-str6 :
    (net : Inet) (x y : Addr) (adr : Bytes) (p : ℕ)
    → IsIn6 x adr p
    → length adr ≡ 16
    → p < 2 ^ 16
    → Knows6 net adr
    → IsAddr y
    → (z : Addr) × (set_string net y (str net x) ≡ ((true, true), z)) × IsIn6 z adr p
set_string-str6 net x y adr p v h hp k w =
    let (kind, fields) = placed_fields y.bytes y.data_size adr p w.size h hp in
    (
      _,
      ap (set_string net y) (str-IsIn6 net x adr p v)
          ∙ (set_string_brackets net y (net.ntop6 adr) (to_string p) k.hex
              (cons≢nil (net.ntop6 adr) k.some_text) (port_text p hp)).0
          ∙ set_parts_lem net (set_family y af_inet6) (set_port (set_family y af_inet6) p)
              (to_string p) (net.ntop6 adr) (to_string-length p) k.some_text
              (set_port_str-to_string (set_family y af_inet6) p hp)
              (set_addr_str-parsed net (set_port (set_family y af_inet6) p) adr k kind),
      fields,
    )

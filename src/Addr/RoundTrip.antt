-- ===== src/Addr/RoundTrip.antt =====
-- source/tftpAddr.cpp: what `set_string` reads from the text that `str` gives, and
-- source/tftpCommon.cpp: `sockaddr_to_str` beside `str`.
use server_fw.Prelude.{
  ℕ, ◌^◌, ◌<◌, ◌≤◌, ◌≡◌, ◌⊎◌, inl, inr, refl, ap, ◌∙◌, arith, true, [], ◌∷◌, ◌++◌, length,
  length-append, slice, put, some,
}
use server_fw.Prelude.Text.{Bytes, codes, NoZero}
use server_fw.Common.Strings.{is_digit_str}
use server_fw.Common.Strings.Decimal.{to_string, is_digit_str-to_string, NoZero-to_string}
use server_fw.Common.Strings.Numbers.{stoul-to_string}
use server_fw.SmBuf.Texts.{until_zero-NoZero}
use server_fw.Addr.{
  Addr, max_sockaddr_size, af_inet, af_inet6, sockaddr_in_size, sockaddr_in6_size, family, port,
  set_family, set_port,
}
use server_fw.Addr.Fields.{IsAddr}
use server_fw.Addr.Text.{Inet, str, sockaddr_to_str, set_addr_str, set_port_str}
use server_fw.Addr.Parse.{first_of, set_port_part, set_addr_part, set_parts, re4, set_string}
use server_fw.Addr.Dotted.{dotted, re4-dotted}

-- The C library prints the four bytes as decimals with dots between them, and reads this text back.
pub record Knows (net : Inet) (a b c d : ℕ) : Type 0 where
  pub printed : net.ntop4 (a ∷ b ∷ c ∷ d ∷ []) ≡ dotted a b c d
  pub parsed : net.pton4 (dotted a b c d) ≡ some (a ∷ b ∷ c ∷ d ∷ [])

-- An IPv4 address with its port.
pub record IsIn (x : Addr) (a b c d p : ℕ) : Type 0 where
  pub kind : family x ≡ af_inet
  pub address : slice x.bytes 4 4 ≡ a ∷ b ∷ c ∷ d ∷ []
  pub numbered : port x ≡ p
  pub size : x.data_size ≡ sockaddr_in_size

placed_fields :
    (bytes : Bytes) (n a b c d p : ℕ)
    → length bytes ≡ max_sockaddr_size
    → p < 2 ^ 16
    → let x : Addr = set_port (set_family (record { bytes = bytes; data_size = n }) af_inet) p in
      (family x ≡ af_inet)
      × IsIn
          (record { bytes = put x.bytes 4 (a ∷ b ∷ c ∷ d ∷ []); data_size = sockaddr_in_size })
          a
          b
          c
          d
          p
unfolding port family set_port set_family
placed_fields (x0 ∷ (x1 ∷ (x2 ∷ (x3 ∷ (x4 ∷ (x5 ∷ (x6 ∷ (x7 ∷ xs)))))))) n a b c d p h q =
    (refl, record { kind = refl; address = refl; numbered = omega arith; size = refl })
placed_fields (x0 ∷ (x1 ∷ (x2 ∷ (x3 ∷ (x4 ∷ (x5 ∷ (x6 ∷ []))))))) n a b c d p h q =
    absurd (omega arith)
placed_fields (x0 ∷ (x1 ∷ (x2 ∷ (x3 ∷ (x4 ∷ (x5 ∷ [])))))) n a b c d p h q = absurd (omega arith)
placed_fields (x0 ∷ (x1 ∷ (x2 ∷ (x3 ∷ (x4 ∷ []))))) n a b c d p h q = absurd (omega arith)
placed_fields (x0 ∷ (x1 ∷ (x2 ∷ (x3 ∷ [])))) n a b c d p h q = absurd (omega arith)
placed_fields (x0 ∷ (x1 ∷ (x2 ∷ []))) n a b c d p h q = absurd (omega arith)
placed_fields (x0 ∷ (x1 ∷ [])) n a b c d p h q = absurd (omega arith)
placed_fields (x0 ∷ []) n a b c d p h q = absurd (omega arith)
placed_fields [] n a b c d p h q = absurd (omega arith)

NoZero-append : (xs ys : Bytes) → NoZero xs → NoZero ys → NoZero (xs ++ ys)
NoZero-append [] ys h k = k
NoZero-append (x ∷ xs) ys h k = (h.0, NoZero-append xs ys h.1 k)

NoZero-dotted : (a b c d : ℕ) → NoZero (dotted a b c d)
NoZero-dotted a b c d = NoZero-append (to_string a) _ (NoZero-to_string a) (
  omega arith,
  NoZero-append (to_string b) _ (NoZero-to_string b) (
    omega arith,
    NoZero-append (to_string c) _ (NoZero-to_string c) (omega arith, NoZero-to_string d),
  ),
)

dotted-length : (a b c d : ℕ) → 0 < length (dotted a b c d)
dotted-length a b c d = omega (
  arith,
  length-append (to_string a) (b'.' ∷ (to_string b ++ b'.' ∷ (to_string c ++ b'.' ∷ to_string d))),
)

port_part : (x : Addr) (s : Bytes) → 0 < length s → set_port_part x s ≡ set_port_str x s
port_part x [] h = absurd (omega arith)
port_part x (c ∷ cs) h = refl

addr_part :
    (net : Inet) (x : Addr) (s : Bytes)
    → 0 < length s
    → set_addr_part net x s ≡ set_addr_str net x s
addr_part net x [] h = absurd (omega arith)
addr_part net x (c ∷ cs) h = refl

first_of-nil : (s : Bytes) → first_of s [] ≡ s
first_of-nil [] = refl
first_of-nil (c ∷ cs) = refl

pub set_port_str-to_string :
    (x : Addr) (p : ℕ) → p < 2 ^ 16 → set_port_str x (to_string p) ≡ (true, set_port x p)
unfolding set_port_str
set_port_str-to_string x p h = ground (arith, stoul-to_string p (omega arith))

set_addr_str-parsed :
    (net : Inet) (x : Addr) (a b c d : ℕ)
    → Knows net a b c d
    → family x ≡ af_inet
    → set_addr_str net x (dotted a b c d)
      ≡ (true, record { bytes = put x.bytes 4 (a ∷ b ∷ c ∷ d ∷ []); data_size = sockaddr_in_size })
unfolding set_addr_str
set_addr_str-parsed net x a b c d k f =
    ground (arith, until_zero-NoZero (dotted a b c d) (NoZero-dotted a b c d), k.parsed)

-- `set_string` once the first regular expression has matched an address and a port.
set_string-matched :
    (net : Inet) (x : Addr) (s addr port : Bytes)
    → re4 s ≡ some (record { addr = addr; addr_only = []; port = port; port_only = [] })
    → set_string net x s ≡ set_parts net (set_family x af_inet) port (first_of addr [])
unfolding set_string
set_string-matched net x s addr port e = ground (arith, e)

pub set_parts_lem :
    (net : Inet) (x y : Addr) (port_s addr_s : Bytes) {z : Addr}
    → 0 < length port_s
    → 0 < length addr_s
    → set_port_str x port_s ≡ (true, y)
    → set_addr_str net y addr_s ≡ (true, z)
    → set_parts net x port_s addr_s ≡ ((true, true), z)
set_parts_lem net x y port_s addr_s h k e f =
    rw (port_part x port_s h, e, addr_part net y addr_s k, f) refl

pub to_string-length : (n : ℕ) → 0 < length (to_string n)
unfolding is_digit_str
to_string-length n = ground (arith, is_digit_str-to_string n)

str-IsIn :
    (net : Inet) (x : Addr) (a b c d p : ℕ)
    → IsIn x a b c d p
    → Knows net a b c d
    → str net x ≡ dotted a b c d ++ (codes ":" ++ to_string p)
unfolding str
str-IsIn net x a b c d p v k = ground (arith, v.kind, v.address, v.numbered, k.printed)

-- An IPv4 address and its port survive the way through text: what `str` gives of them, `set_string`
-- accepts whole, into any buffer, which then holds the same address, port, family and size. The C
-- library prints the address as four decimals with dots and reads this text back.
pub set_string-str :
    (net : Inet) (x y : Addr) (a b c d p : ℕ)
    → IsIn x a b c d p
    → a < 256
    → b < 256
    → c < 256
    → d < 256
    → p < 2 ^ 16
    → Knows net a b c d
    → IsAddr y
    → (z : Addr) × (set_string net y (str net x) ≡ ((true, true), z)) × IsIn z a b c d p
set_string-str net x y a b c d p v ha hb hc hd hp k w =
    let (kind, fields) = placed_fields y.bytes y.data_size a b c d p w.size hp in
    (
      _,
      ap (set_string net y) (str-IsIn net x a b c d p v k)
          ∙ set_string-matched net y _ (dotted a b c d) (to_string p)
              (re4-dotted a b c d p ha hb hc hd hp)
          ∙ ap (set_parts net (set_family y af_inet) (to_string p)) (first_of-nil (dotted a b c d))
          ∙ set_parts_lem net (set_family y af_inet) (set_port (set_family y af_inet) p)
              (to_string p) (dotted a b c d) (to_string-length p) (dotted-length a b c d)
              (set_port_str-to_string (set_family y af_inet) p hp)
              (set_addr_str-parsed net (set_port (set_family y af_inet) p) a b c d k kind),
      fields,
    )

-- `sockaddr_to_str` of the bytes of an address, as many as its family has, is its `str`.
pub sockaddr_to_str-str :
    (net : Inet) (x : Addr)
    → ((family x ≡ af_inet) × (sockaddr_in_size ≤ length x.bytes))
      ⊎ ((family x ≡ af_inet6) × (sockaddr_in6_size ≤ length x.bytes))
    → sockaddr_to_str net x.bytes ≡ str net x
unfolding sockaddr_to_str str family port
sockaddr_to_str-str net x (inl (f, h)) = ground (arith, f)
sockaddr_to_str-str net x (inr (f, h)) = ground (arith, f)

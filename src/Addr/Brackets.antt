-- ===== src/Addr/Brackets.antt =====
-- source/tftpAddr.cpp: IPv6 addresses in `set_string`, with and without brackets.
use server_fw.Prelude.{ℕ, zero, suc, ◌≡◌, ◌≢◌, refl, arith, true, false, [], ◌∷◌, ◌++◌, none, some}
use server_fw.Prelude.Text.{Bytes}
use server_fw.Common.Strings.{is_digit, all_digits}
use server_fw.Common.Strings.Numbers.{all_digits-false}
use server_fw.Addr.{Addr, af_inet6, set_family}
use server_fw.Addr.Text.{Inet}
use server_fw.Addr.Parse.{
  after_char, digit_block, octets, re4, re6, is_port_text, is_hex_or_colon, hex_run, skip_open,
  last_colon, set_parts, set_string,
}

-- Hexadecimal digits and colons alone.
abbrev pub IsHex : Bytes → Type 0
IsHex [] = Unit {0}
IsHex (c ∷ cs) = (is_hex_or_colon c ≡ true) × IsHex cs

hex_run-IsHex : (s rest : Bytes) → IsHex s → hex_run (s ++ b']' ∷ rest) ≡ (s, b']' ∷ rest)
unfolding is_digit
hex_run-IsHex [] rest h = refl
hex_run-IsHex (c ∷ cs) rest h = ground (arith, h.0, hex_run-IsHex cs rest h.1)

hex_run-all : (s : Bytes) → IsHex s → hex_run s ≡ (s, [])
hex_run-all [] h = refl
hex_run-all (c ∷ cs) h = ground (arith, h.0, hex_run-all cs h.1)

-- No dot stands among the digits of an octet and behind them.
digit_block-IsHex : (max : ℕ) (s : Bytes) → IsHex s → IsHex (digit_block max s).1
unfolding digit_block
digit_block-IsHex zero s h = h
digit_block-IsHex (suc max) [] h = tt
digit_block-IsHex (suc max) (c ∷ cs) h = ground (arith, digit_block-IsHex max cs h.1)

no_dot : (s : Bytes) → IsHex s → after_char b'.' s ≡ none
unfolding is_digit
no_dot [] h = refl
no_dot (c ∷ cs) h = ground (arith, h.0)

octets-IsHex : (more : ℕ) (s : Bytes) → IsHex s → octets (suc more) s ≡ none
unfolding octets
octets-IsHex more s h = ground (arith, no_dot (digit_block 3 s).1 (digit_block-IsHex 3 s h))

all_digits-colon : (xs ys : Bytes) → all_digits true (xs ++ b':' ∷ ys) ≡ false
unfolding all_digits is_digit
all_digits-colon [] ys = all_digits-false ys
all_digits-colon (x ∷ xs) ys =
    ground (arith, all_digits-colon xs ys, all_digits-false (xs ++ b':' ∷ ys))

IsHex-append : (xs ys : Bytes) → IsHex xs → IsHex ys → IsHex (xs ++ ys)
IsHex-append [] ys h k = k
IsHex-append (x ∷ xs) ys h k = (h.0, IsHex-append xs ys h.1 k)

digits-IsHex : (s : Bytes) → all_digits true s ≡ true → IsHex s
unfolding all_digits
digits-IsHex [] h = tt
digits-IsHex (c ∷ cs) h =
    (ground (arith, all_digits-false cs), digits-IsHex cs (ground (arith, all_digits-false cs)))

last_colon-none : (s : Bytes) → all_digits true s ≡ true → last_colon s ≡ none
unfolding all_digits is_digit
last_colon-none [] h = refl
last_colon-none (c ∷ cs) h = ground (arith, all_digits-false cs, last_colon-none cs)

last_colon-append :
    (xs ys : Bytes) → last_colon ys ≡ none → last_colon (xs ++ b':' ∷ ys) ≡ some (xs, ys)
last_colon-append [] ys h = ground arith
last_colon-append (x ∷ xs) ys h = ground (arith, last_colon-append xs ys h)

re4-IsHex :
    (adr digits : Bytes)
    → IsHex adr
    → adr ≢ []
    → all_digits true digits ≡ true
    → re4 (adr ++ b':' ∷ digits) ≡ none
unfolding re4 is_digit
re4-IsHex [] digits h n d = absurd (n refl)
re4-IsHex (c ∷ adr) digits h n d =
    let e =
      octets-IsHex 2 ((c ∷ adr) ++ b':' ∷ digits)
        (IsHex-append (c ∷ adr) (b':' ∷ digits) h (refl, digits-IsHex digits d)) in
    ground (arith, e, all_digits-colon adr digits)

re4-bracket : (s : Bytes) → re4 (b'[' ∷ s) ≡ none
unfolding re4 octets digit_block is_digit
re4-bracket s = ground arith

skip_open-IsHex : (s : Bytes) → IsHex s → skip_open s ≡ s
unfolding is_digit
skip_open-IsHex [] h = refl
skip_open-IsHex (c ∷ cs) h = ground (arith, h.0)

port_digits : (s : Bytes) → is_port_text s ≡ true → all_digits true s ≡ true
port_digits s h = ground arith

IsHex-port :
    (adr digits : Bytes) → IsHex adr → is_port_text digits ≡ true → IsHex (adr ++ b':' ∷ digits)
unfolding is_digit
IsHex-port adr digits h p =
    IsHex-append adr (b':' ∷ digits) h (refl, digits-IsHex digits (port_digits digits p))

re6-open :
    (adr digits : Bytes)
    → IsHex adr
    → is_port_text digits ≡ true
    → re6 (adr ++ b':' ∷ digits)
      ≡ some (record { addr = adr; addr_only = []; port = digits; port_only = [] })
unfolding re6
re6-open adr digits h p = ground (
  arith,
  skip_open-IsHex (adr ++ b':' ∷ digits) (IsHex-port adr digits h p),
  hex_run-all (adr ++ b':' ∷ digits) (IsHex-port adr digits h p),
  last_colon-append adr digits (last_colon-none digits (port_digits digits p)),
  p,
)

re6-closed :
    (adr digits : Bytes)
    → IsHex adr
    → is_port_text digits ≡ true
    → re6 (b'[' ∷ (adr ++ (b']' ∷ (b':' ∷ digits))))
      ≡ some (record { addr = adr; addr_only = []; port = digits; port_only = [] })
unfolding re6
re6-closed adr digits h p = ground (arith, hex_run-IsHex adr (b':' ∷ digits) h, p)

six_matched :
    (net : Inet) (y : Addr) (s adr digits : Bytes)
    → re4 s ≡ none
    → re6 s ≡ some (record { addr = adr; addr_only = []; port = digits; port_only = [] })
    → set_string net y s ≡ set_parts net (set_family y af_inet6) digits adr
unfolding set_string
six_matched net y s adr digits e f = ground (arith, e, f)

-- An IPv6 address and a port are set the same with brackets round the address and without. So without
-- brackets the last group of one to five decimals is the port, also where it was meant as a part of
-- the address.
pub set_string_brackets :
    (net : Inet) (y : Addr) (adr digits : Bytes)
    → IsHex adr
    → adr ≢ []
    → is_port_text digits ≡ true
    → (set_string net y (b'[' ∷ (adr ++ (b']' ∷ (b':' ∷ digits))))
        ≡ set_parts net (set_family y af_inet6) digits adr)
      × (set_string net y (adr ++ b':' ∷ digits) ≡ set_parts net (set_family y af_inet6) digits adr)
set_string_brackets net y adr digits h n p = (
  six_matched net y _ adr digits (re4-bracket _) (re6-closed adr digits h p),
  six_matched net y _ adr digits (re4-IsHex adr digits h n (port_digits digits p))
      (re6-open adr digits h p),
)

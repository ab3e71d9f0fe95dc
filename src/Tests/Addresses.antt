-- ===== src/Tests/Addresses.antt =====
-- Addresses and text: source/tftpAddr.cpp at one address of each family.
use server_fw.Prelude.{◌≡◌, refl, arith, true, [], ◌∷◌, ◌++◌, replicate, if◌then◌else◌, some, none}
use server_fw.Prelude.Text.{Bytes, codes, text_eq, text_eq_iff}
use server_fw.Common.Strings.{is_digit, all_digits}
use server_fw.Addr.{Addr, af_inet6, family, port, set_family}
use server_fw.Addr.Text.{Inet, str}
use server_fw.Addr.Parse.{set_parts, set_string}
use server_fw.Addr.Dotted.{dotted}
use server_fw.Addr.RoundTrip.{Knows, IsIn, set_string-str}
use server_fw.Addr.Brackets.{set_string_brackets}
use server_fw.Addr.RoundTripSix.{Knows6, IsIn6, set_string-str6}

abbrev ten : Bytes
ten = 10 ∷ 0 ∷ 0 ∷ 1 ∷ []

abbrev link_local : Bytes
link_local = 254 ∷ 128 ∷ 0 ∷ 0 ∷ 0 ∷ 0 ∷ 0 ∷ 0 ∷ 0 ∷ 0 ∷ 0 ∷ 0 ∷ 0 ∷ 0 ∷ 0 ∷ 1 ∷ []

abbrev print4 : Bytes → Bytes
print4 (a ∷ (b ∷ (c ∷ (d ∷ [])))) = dotted a b c d
print4 _ = []

-- A library that knows two addresses.
abbrev pub net : Inet
net = record {
  pton4 = λ s. if text_eq s (dotted 10 0 0 1) then some ten else none;
  pton6 = λ s. if text_eq s (codes "fe80::1") then some link_local else none;
  ntop4 = print4;
  ntop6 = λ adr. codes "fe80::1";
}

net-Knows : Knows net 10 0 0 1
net-Knows = record {
  printed = refl;
  parsed = ground (arith, text_eq_iff (dotted 10 0 0 1) (dotted 10 0 0 1));
}

abbrev four : Addr
four = record { bytes = 2 ∷ 0 ∷ 0 ∷ 69 ∷ (ten ++ replicate 22 0); data_size = 16 }

abbrev six : Addr
six = record {
  bytes = 10 ∷ 0 ∷ 0 ∷ 69 ∷ 0 ∷ 0 ∷ 0 ∷ 0 ∷ (link_local ++ replicate 6 0);
  data_size = 28;
}

four-IsIn : IsIn four 10 0 0 1 69
unfolding family port
four-IsIn = record { kind = refl; address = refl; numbered = refl; size = refl }

set_string-str_example :
    (z : Addr) × (set_string net six (str net four) ≡ ((true, true), z)) × IsIn z 10 0 0 1 69
set_string-str_example =
    set_string-str net four six 10 0 0 1 69 four-IsIn (omega arith) (omega arith) (omega arith)
      (omega arith) (omega arith) net-Knows (record { size = refl })

six-IsIn6 : IsIn6 six link_local 69
unfolding family port
six-IsIn6 = record { kind = refl; address = refl; numbered = refl; size = refl }

net-Knows6 : Knows6 net link_local
unfolding is_digit text_eq
net-Knows6 = record {
  hex = (refl, (refl, (refl, (refl, (refl, (refl, (refl, tt)))))));
  some_text = omega arith;
  parsed = refl;
}

set_string-str6_example :
    (z : Addr) × (set_string net four (str net six) ≡ ((true, true), z)) × IsIn6 z link_local 69
set_string-str6_example =
    set_string-str6 net six four link_local 69 six-IsIn6 refl (omega arith) net-Knows6
      (record { size = refl })

set_string_brackets_example :
    (set_string net four (codes "[fe80:]:1")
      ≡ set_parts net (set_family four af_inet6) (codes "1") (codes "fe80:"))
    × (set_string net four (codes "fe80::1")
        ≡ set_parts net (set_family four af_inet6) (codes "1") (codes "fe80:"))
unfolding is_digit all_digits
set_string_brackets_example =
    set_string_brackets net four (codes "fe80:") (codes "1")
      (refl, (refl, (refl, (refl, (refl, tt))))) (λ e. cc) refl

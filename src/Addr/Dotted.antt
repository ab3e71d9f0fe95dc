-- ===== src/Addr/Dotted.antt =====
-- source/tftpAddr.cpp: what the first regular expression of `set_string` makes of an IPv4 address with
-- a port.
use server_fw.Prelude.{
  ℕ, zero, suc, ◌^◌, ◌<◌, ◌≤◌, ◌≡◌, refl, ap, ◌∙◌, arith, true, false, [], ◌∷◌, ◌++◌, append_assoc,
  length, some,
}
use server_fw.Prelude.Text.{Bytes, codes}
use server_fw.Common.Strings.{is_digit, is_digit_str, all_digits}
use server_fw.Common.Strings.Decimal.{to_string, is_digit_str-to_string, length-to_string-below}
use server_fw.Common.Strings.Numbers.{all_digits-false}
use server_fw.Addr.Parse.{digit_block, octets, re4}

-- The dotted text of four bytes.
abbrev pub dotted : ℕ → ℕ → ℕ → ℕ → Bytes
dotted a b c d = to_string a ++ b'.' ∷ (to_string b ++ b'.' ∷ (to_string c ++ b'.' ∷ to_string d))

-- No digit comes next.
abbrev pub Stops : Bytes → Type 0
Stops [] = Unit {0}
Stops (c ∷ cs) = is_digit c ≡ false

digit_block-digits :
    (max : ℕ) (digits rest : Bytes)
    → all_digits true digits ≡ true
    → length digits ≤ max
    → Stops rest
    → digit_block max (digits ++ rest) ≡ (digits, rest)
unfolding digit_block all_digits
digit_block-digits zero [] rest h n s = refl
digit_block-digits zero (c ∷ cs) rest h n s = absurd (omega arith)
digit_block-digits (suc max) [] [] h n s = refl
digit_block-digits (suc max) [] (c ∷ cs) h n s = rw s refl
digit_block-digits (suc max) (c ∷ cs) rest h n s =
    ground (arith, all_digits-false cs, digit_block-digits max cs rest)

-- A decimal number of one to so many digits.
pub record IsNumber (most : ℕ) (s : Bytes) : Type 0 where
  pub digits : all_digits true s ≡ true
  pub some_digit : 0 < length s
  pub few : length s ≤ most

pub to_string-IsNumber : (k n : ℕ) → n < 10 ^ suc k → IsNumber (suc k) (to_string n)
unfolding is_digit_str
to_string-IsNumber k n h = record {
  digits = ground (arith, is_digit_str-to_string n);
  some_digit = ground (arith, is_digit_str-to_string n);
  few = length-to_string-below k n h;
}

octets-last :
    (s rest : Bytes) → IsNumber 3 s → Stops rest → octets zero (s ++ rest) ≡ some (s, rest)
unfolding octets
octets-last s rest v h = ground (arith, digit_block-digits 3 s rest v.digits v.few h, v.some_digit)

octets-more :
    (more : ℕ) (s rest : Bytes) {t : Bytes × Bytes}
    → IsNumber 3 s
    → octets more rest ≡ some t
    → octets (suc more) (s ++ b'.' ∷ rest) ≡ some (s ++ b'.' ∷ t.0, t.1)
unfolding octets is_digit
octets-more more s rest v e =
    ground (arith, digit_block-digits 3 s (b'.' ∷ rest) v.digits v.few refl, v.some_digit, e)

dotted-behind :
    (a b c d : ℕ) (rest : Bytes)
    → dotted a b c d ++ rest
      ≡ to_string a ++ b'.' ∷ (to_string b ++ b'.' ∷ (to_string c ++ b'.' ∷ (to_string d ++ rest)))
dotted-behind a b c d rest = simp append_assoc refl

octets-dotted :
    (a b c d : ℕ) (rest : Bytes)
    → a < 256
    → b < 256
    → c < 256
    → d < 256
    → Stops rest
    → octets 3 (dotted a b c d ++ rest) ≡ some (dotted a b c d, rest)
octets-dotted a b c d rest ha hb hc hd h =
    ap (octets 3) (dotted-behind a b c d rest)
    ∙ octets-more 2 (to_string a) _ (to_string-IsNumber 2 a (omega arith)) (
        octets-more 1 (to_string b) _ (to_string-IsNumber 2 b (omega arith)) (
          octets-more 0 (to_string c) _ (to_string-IsNumber 2 c (omega arith))
            (octets-last (to_string d) rest (to_string-IsNumber 2 d (omega arith)) h)))

re4-octets :
    (s adr cs : Bytes)
    → octets 3 s ≡ some (adr, b':' ∷ cs)
    → IsNumber 5 cs
    → re4 s ≡ some (record { addr = adr; addr_only = []; port = cs; port_only = [] })
unfolding re4
re4-octets s adr cs e v = ground (arith, e, v.digits, v.few, v.some_digit)

pub re4-dotted :
    (a b c d port : ℕ)
    → a < 256
    → b < 256
    → c < 256
    → d < 256
    → port < 2 ^ 16
    → re4 (dotted a b c d ++ (codes ":" ++ to_string port))
      ≡ some
          (record { addr = dotted a b c d; addr_only = []; port = to_string port; port_only = [] })
unfolding is_digit
re4-dotted a b c d port ha hb hc hd hp =
    re4-octets _ (dotted a b c d) (to_string port)
      (octets-dotted a b c d (codes ":" ++ to_string port) ha hb hc hd refl)
      (to_string-IsNumber 4 port (omega arith))

-- ===== src/Addr/Parse.antt =====
-- source/tftpAddr.cpp: `set_string`, with its two regular expressions as functions that give the
-- groups of the match. Neither can match in two ways with different groups.
use server_fw.Prelude.{
  ℕ, zero, suc, Bool, true, false, ◌&&◌, ◌||◌, [], ◌∷◌, ◌++◌, length, ltb, leb, ◌==◌, if◌then◌else◌,
  Option, none, some,
}
use server_fw.Prelude.Text.{Bytes}
use server_fw.Common.Strings.{is_digit, all_digits}
use server_fw.Addr.{Addr, af_inet, af_inet6, set_family}
use server_fw.Addr.Text.{Inet, set_addr_str, set_port_str}

-- `\d{0,max}` and the text behind it.
unfoldable pub digit_block : ℕ → Bytes → Bytes × Bytes
digit_block zero cs = ([], cs)
digit_block (suc max) [] = ([], [])
digit_block (suc max) (c ∷ cs) =
    let (digits, rest) = digit_block max cs in
    if is_digit c then (c ∷ digits, rest) else ([], c ∷ cs)

abbrev dotted_rest : Bytes → Option (Bytes × Bytes) → Option (Bytes × Bytes)
dotted_rest digits none = none
dotted_rest digits (some (more, rest)) = some (digits ++ b'.' ∷ more, rest)

-- The text behind a character that must come next.
abbrev pub after_char : ℕ → Bytes → Option Bytes
after_char expected [] = none
after_char expected (c ∷ cs) = if c == expected then some cs else none

-- `\d{1,3}`, and `\.\d{1,3}` as often as given, with the text behind them.
unfoldable pub octets : ℕ → Bytes → Option (Bytes × Bytes)
unfolding digit_block
octets zero cs =
    let (digits, rest) = digit_block 3 cs in
    if length digits == 0 then none else some (digits, rest)
octets (suc more) cs =
    let (digits, rest) = digit_block 3 cs in
    if length digits == 0 then none else elim (after_char b'.' rest) [
      | none ↦ none
      | some rest' ↦ dotted_rest digits (octets more rest')
    ]

-- The groups of a match; one that took no part is empty.
pub record Groups : Type 0 where
  pub addr : Bytes
  pub addr_only : Bytes
  pub port : Bytes
  pub port_only : Bytes

-- `\d{1,5}` and the end.
abbrev pub is_port_text : Bytes → Bool
is_port_text s = ltb 0 (length s) && leb (length s) 5 && all_digits true s

-- Behind an address: the end, or `:(\d{0,5})` and the end.
abbrev re4_behind : Bytes → Bytes → Option Groups
re4_behind adr [] = some (record { addr = []; addr_only = adr; port = []; port_only = [] })
re4_behind adr (c ∷ cs) =
    if c == b':' && leb (length cs) 5 && all_digits true cs
    then some (record { addr = adr; addr_only = []; port = cs; port_only = [] })
    else none

-- The first regular expression: its groups 3, 1, 4 and 5.
unfoldable pub re4 : Bytes → Option Groups
unfolding octets digit_block
re4 s = elim (octets 3 s) [
  | some r ↦ re4_behind r.0 r.1
  | none ↦ elim (after_char b':' s) [
    | none ↦ none
    | some cs ↦
        if is_port_text cs
        then some (record { addr = []; addr_only = []; port = []; port_only = cs })
        else none
  ]
]

-- `[0-9a-fA-F\:]`
abbrev pub is_hex_or_colon : ℕ → Bool
is_hex_or_colon c =
    is_digit c || (leb b'a' c && leb c b'f') || (leb b'A' c && leb c b'F') || c == b':'

-- The longest run of such characters, and the text behind it.
abbrev pub hex_run : Bytes → Bytes × Bytes
hex_run [] = ([], [])
hex_run (c ∷ cs) =
    let (run, rest) = hex_run cs in if is_hex_or_colon c then (c ∷ run, rest) else ([], c ∷ cs)

-- The text in front of the last colon, and the text behind it.
abbrev pub last_colon : Bytes → Option (Bytes × Bytes)
last_colon [] = none
last_colon (c ∷ cs) = elim (last_colon cs) [
  | some r ↦ some (c ∷ r.0, r.1)
  | none ↦ if c == b':' then some ([], cs) else none
]

abbrev pub skip_open : Bytes → Bytes
skip_open [] = []
skip_open (c ∷ cs) = if c == b'[' then cs else c ∷ cs

abbrev six_with_port : Bytes → Bytes → Groups
six_with_port adr s = record { addr = adr; addr_only = []; port = s; port_only = [] }

abbrev six_only : Bytes → Groups
six_only adr = record { addr = []; addr_only = adr; port = []; port_only = [] }

-- Without a closing bracket the run gives back characters until a port fits behind its last colon.
abbrev re6_open : Bytes → Groups
re6_open run = elim (last_colon run) [
  | some r ↦ if is_port_text r.1 then six_with_port r.0 r.1 else six_only run
  | none ↦ six_only run
]

-- Behind the closing bracket.
abbrev re6_closed : Bytes → Bytes → Option Groups
re6_closed run [] = some (six_only run)
re6_closed run (c ∷ cs) = if c == b':' && is_port_text cs then some (six_with_port run cs) else none

abbrev re6_behind : Bytes → Bytes → Option Groups
re6_behind run [] = some (re6_open run)
re6_behind run (c ∷ cs) = if c == b']' then re6_closed run cs else none

-- The second regular expression: its groups 1, 3 and 2.
unfoldable pub re6 : Bytes → Option Groups
re6 s = let (run, rest) = hex_run (skip_open s) in re6_behind run rest

abbrev pub first_of : Bytes → Bytes → Bytes
first_of [] other = other
first_of (c ∷ cs) other = c ∷ cs

abbrev pub set_port_part : Addr → Bytes → Bool × Addr
set_port_part a [] = (false, a)
set_port_part a (c ∷ cs) = set_port_str a (c ∷ cs)

abbrev pub set_addr_part : Inet → Addr → Bytes → Bool × Addr
set_addr_part net a [] = (false, a)
set_addr_part net a (c ∷ cs) = set_addr_str net a (c ∷ cs)

-- The port first, then the address; whether each was set.
abbrev pub set_parts : Inet → Addr → Bytes → Bytes → (Bool × Bool) × Addr
set_parts net a port_s addr_s =
    let (is_set_port, a') = set_port_part a port_s in
    let (is_set_addr, a'') = set_addr_part net a' addr_s in ((is_set_addr, is_set_port), a'')

unfoldable pub set_string : Inet → Addr → Bytes → (Bool × Bool) × Addr
unfolding re4 re6
set_string net a new_value = elim (re4 new_value) [
  | some g ↦
      set_parts net (set_family a af_inet) (first_of g.port_only g.port)
        (first_of g.addr g.addr_only)
  | none ↦ elim (re6 new_value) [
    | some g ↦ set_parts net (set_family a af_inet6) g.port (first_of g.addr_only g.addr)
    | none ↦ ((false, false), a)
  ]
]

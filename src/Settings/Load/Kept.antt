-- ===== src/Settings/Load/Kept.antt =====
-- source/tftpSettings.cpp: what one answer of `getopt_long` leaves of the settings.
use server_fw.Prelude.{
  ℕ, ◌%◌, ◌^◌, ◌<◌, ◌≡◌, refl, subst, sym, arith, Bool, true, false, not, ◌||◌, ◌&&◌, List, [], ◌∷◌,
  ◌++◌, append-nil, ◌==◌, Bool-cases, inl, inr, ◌⊎◌, if◌then◌else◌, Option, none, some, Result, ok,
  err, ◌>>=◌,
}
use server_fw.Prelude.Text.{Bytes}
use server_fw.Common.Strings.Numbers.{stoul, stoi, stoi_bound}
use server_fw.Addr.Text.{Inet}
use server_fw.Settings.{Settings}
use server_fw.Settings.Load.{
  Answer, is_help, or_else, long_value, long_option, listen, syslog_level, option,
}

-- The numbers of the settings fit their types, and the level is one of the log's.
pub record IsSettings (s : Settings) : Type 0 where
  pub level : s.use_syslog < 8
  pub dialect16 : s.dialect < 2 ^ 16
  pub count16 : s.retransmit_count < 2 ^ 16
  pub mode32 : s.file_chmod < 2 ^ 32

-- The argument of `--file-chmod`.
abbrev pub mode_text : Answer → Option Bytes
mode_text a = if a.opt == 0 && a.long_index == 17 then a.optarg else none

-- The argument of `--search`.
abbrev pub search_text : Answer → List Bytes
search_text a =
    if a.opt == 0 && a.long_index == 7
    then elim a.optarg [ none ↦ [] | some arg ↦ arg ∷ [] ]
    else []

abbrev pub searches : List Answer → List Bytes
searches [] = []
searches (a ∷ answers) = search_text a ++ searches answers

-- The letters that ask for the help; `getopt_long` gives the last of them for an option that it does
-- not know.
abbrev is_help_letter : ℕ → Bool
is_help_letter c = c == b'h' || c == b'H' || c == b'?'

abbrev pub asks_help : List Answer → Bool
asks_help [] = false
asks_help (a ∷ answers) = is_help_letter a.opt || asks_help answers

abbrev pub is_ok {ℓ} : {A : Type ℓ} → Result A → Bool
is_ok (err x) = false
is_ok (ok x) = true

-- Whether each mode that is given is a number in base 8 for `std::stoi`.
abbrev pub readable : Option Bytes → Bool
readable none = true
readable (some arg) = is_ok (stoi 8 arg)

abbrev pub all_readable : List Answer → Bool
all_readable [] = true
all_readable (a ∷ answers) = readable (mode_text a) && all_readable answers

or_else-below :
    (bound old : ℕ) (r : Result ℕ)
    → old < bound
    → ((v : ℕ) → r ≡ ok v → v < bound)
    → or_else old r < bound
or_else-below bound old (err x) h k = h
or_else-below bound old (ok v) h k = k v refl

word_below : (r : Result ℕ) {v : ℕ} → (r >>= λ v. ok (v % 2 ^ 16)) ≡ ok v → v < 2 ^ 16
word_below r e = ground arith

long_value_total :
    (s : Settings) (i : ℕ) (arg : Bytes)
    → (i ≡ 17 → is_ok (stoi 8 arg) ≡ true)
    → is_ok (long_value s i arg) ≡ true
long_value_total s i arg h = ground (arith, h)

long_value_found :
    (s : Settings) (i : ℕ) (arg : Bytes) {s' : Settings}
    → long_value s i arg ≡ ok s'
    → s'.backup_dirs ≡ s.backup_dirs ++ (if i == 7 then arg ∷ [] else [])
long_value_found s i arg e = ground (arith, append-nil s.backup_dirs)

long_value_kept :
    (s : Settings) (i : ℕ) (arg : Bytes) {s' : Settings}
    → long_value s i arg ≡ ok s'
    → IsSettings s
    → IsSettings s'
long_value_kept s i arg e v = record {
  level = ground (arith, v.level);
  dialect16 = ground (
    arith,
    v.dialect16,
    or_else-below (2 ^ 16) s.dialect (stoul arg >>= λ v. ok (v % 2 ^ 16)) v.dialect16
        (λ w. word_below (stoul arg)),
  );
  count16 = ground (
    arith,
    v.count16,
    or_else-below (2 ^ 16) s.retransmit_count (stoul arg >>= λ v. ok (v % 2 ^ 16)) v.count16
        (λ w. word_below (stoul arg)),
  );
  mode32 = ground (
    arith,
    v.mode32,
    or_else-below (2 ^ 32) 0 (stoi 8 arg) (omega arith) (λ w. stoi_bound 8 arg),
  );
}

pub option_total :
    (net : Inet) (ret : Bool) (s : Settings) (opt i : ℕ) (o : Option Bytes)
    → let a : Answer = record { opt = opt; long_index = i; optarg = o } in
      readable (mode_text a) ≡ true → is_ok (option net (ret, s) a) ≡ true
unfolding option
option_total net ret s opt i none h = ground arith
option_total net ret s opt i (some arg) h = ground (arith, h)

pub option_found :
    (net : Inet) (ret : Bool) (s : Settings) (opt i : ℕ) (o : Option Bytes) {r' : Bool × Settings}
    → let a : Answer = record { opt = opt; long_index = i; optarg = o } in
      option net (ret, s) a ≡ ok r' → (r'.1.backup_dirs ≡ s.backup_dirs ++ search_text a)
unfolding option
option_found net ret s opt i none e = ground (arith, append-nil s.backup_dirs)
option_found net ret s opt i (some arg) e = ground (arith, append-nil s.backup_dirs)

pub option_asked :
    (net : Inet) (ret : Bool) (s : Settings) (opt i : ℕ) (o : Option Bytes) {r' : Bool × Settings}
    → option net (ret, s) (record { opt = opt; long_index = i; optarg = o }) ≡ ok r'
    → r'.0 ≡ (ret && not (is_help_letter opt))
unfolding option
option_asked net ret s opt i none e = ground arith
option_asked net ret s opt i (some arg) e = ground arith

level_below : (r : Result ℕ) {v : ℕ} → (r >>= λ v. ok (v % 8)) ≡ ok v → v < 8
level_below r e = ground arith

long_option_kept :
    (s : Settings) (i : ℕ) (o : Option Bytes) {s' : Settings}
    → long_option s i o ≡ ok s'
    → IsSettings s
    → IsSettings s'
long_option_kept s i none e v = record {
  level = ground (arith, v.level);
  dialect16 = ground (arith, v.dialect16);
  count16 = ground (arith, v.count16);
  mode32 = ground (arith, v.mode32);
}
long_option_kept s i (some arg) {s'} e v = elim (Bool-cases (i == 13)) [
  | inl y ↦ record {
    level = ground (arith, v.level);
    dialect16 = ground (arith, v.dialect16);
    count16 = ground (arith, v.count16);
    mode32 = ground (arith, v.mode32);
  }
  | inr n ↦ long_value_kept s i arg (rw n at e) v
]

syslog_level_kept : (s : Settings) (o : Option Bytes) → IsSettings s → IsSettings (syslog_level s o)
syslog_level_kept s none v = v
syslog_level_kept s (some arg) v = record {
  level =
      or_else-below 8 s.use_syslog (stoi 10 arg >>= λ v. ok (v % 8)) v.level
        (λ w. level_below (stoi 10 arg));
  dialect16 = v.dialect16;
  count16 = v.count16;
  mode32 = v.mode32;
}

listen_kept :
    (net : Inet) (s : Settings) (o : Option Bytes) → IsSettings s → IsSettings (listen net s o)
listen_kept net s none v = v
listen_kept net s (some arg) v = record {
  level = v.level;
  dialect16 = v.dialect16;
  count16 = v.count16;
  mode32 = v.mode32;
}

ways_of :
    (c1 c2 c3 c4 ret : Bool) (x y s : Settings) (m : Result Settings) {r' : Bool × Settings}
    → (if c1
        then ok (ret, x)
        else if c2
        then ok (ret, y)
        else if c3
        then ok (false, s)
        else if c4
        then m >>= (λ s'. ok (ret, s'))
        else ok (ret, s))
      ≡ ok r'
    → (r'.1 ≡ x) ⊎ ((r'.1 ≡ y) ⊎ ((r'.1 ≡ s) ⊎ (m ≡ ok r'.1)))
ways_of c1 c2 c3 c4 ret x y s m e = ground arith

-- Which of its four ways a turn of the loop took.
option_ways :
    (net : Inet) (ret : Bool) (s : Settings) (a : Answer) {r' : Bool × Settings}
    → option net (ret, s) a ≡ ok r'
    → (r'.1 ≡ listen net s a.optarg)
      ⊎ ((r'.1 ≡ syslog_level s a.optarg)
          ⊎ ((r'.1 ≡ s) ⊎ (long_option s a.long_index a.optarg ≡ ok r'.1)))
unfolding option
option_ways net ret s a e =
    ways_of (a.opt == b'l') (a.opt == b's' || a.opt == b'S') (is_help a.opt) (a.opt == 0) ret
      (listen net s a.optarg) (syslog_level s a.optarg) s (long_option s a.long_index a.optarg) e

pub option_kept :
    (net : Inet) (ret : Bool) (s : Settings) (a : Answer) {r' : Bool × Settings}
    → option net (ret, s) a ≡ ok r'
    → IsSettings s
    → IsSettings r'.1
option_kept net ret s a e v = elim (option_ways net ret s a e) [
  | inl w ↦ subst IsSettings (sym w) (listen_kept net s a.optarg v)
  | inr (inl w) ↦ subst IsSettings (sym w) (syslog_level_kept s a.optarg v)
  | inr (inr (inl w)) ↦ subst IsSettings (sym w) v
  | inr (inr (inr w)) ↦ long_option_kept s a.long_index a.optarg w v
]

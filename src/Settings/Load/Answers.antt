-- ===== src/Settings/Load/Answers.antt =====
-- source/tftpSettings.cpp: what `load_options` makes of all its answers.
use server_fw.Prelude.{
  ℕ, ◌<◌, ◌≡◌, refl, sym, ap, ◌∙◌, arith, Bool, true, false, not, ◌&&◌, List, [], ◌∷◌, ◌++◌,
  append_assoc, append-nil, lt→ltb, Fault, Result, ok, err, ◌>>=◌, >>=-congr, Option, some, none,
}
use server_fw.Prelude.Text.{Bytes}
use server_fw.Addr.Text.{Inet}
use server_fw.Settings.{Settings}
use server_fw.Settings.Load.{Answer, option, options, load_options}
use server_fw.Settings.Load.Kept.{
  IsSettings, mode_text, search_text, searches, asks_help, is_ok, readable, all_readable,
  option_total, option_found, option_asked, option_kept,
}

pub value_of {ℓ} : {A : Type ℓ} (r : Result A) → is_ok r ≡ true → (x : A) × (r ≡ ok x)
value_of (err x) h = absurd (ground (arith, h))
value_of (ok x) h = (x, refl)

fault_of {ℓ} : {A : Type ℓ} (r : Result A) → is_ok r ≡ false → (f : Fault) × (r ≡ err f)
fault_of (err x) h = (x, refl)
fault_of (ok x) h = absurd (ground (arith, h))

-- What a list of answers leaves.
pub record Loaded (ret : Bool) (s : Settings) (answers : List Answer) (r : Bool × Settings)
    : Type 0 where
  pub fits : IsSettings s → IsSettings r.1
  pub found : r.1.backup_dirs ≡ s.backup_dirs ++ searches answers
  pub asked : r.0 ≡ (ret && not (asks_help answers))

options-Loaded :
    (net : Inet) (ret : Bool) (s : Settings) (answers : List Answer)
    → all_readable answers ≡ true
    → (r : Bool × Settings) × (options net (ret, s) answers ≡ ok r) × Loaded ret s answers r
options-Loaded net ret s [] h = (
  (ret, s),
  refl,
  record { fits = λ v. v; found = sym (append-nil s.backup_dirs); asked = ground arith },
)
options-Loaded net ret s (a ∷ answers) h =
    let (r1, e) =
      value_of (option net (ret, s) a)
        (option_total net ret s a.opt a.long_index a.optarg (ground (arith, h))) in
    let (r, e', v) = options-Loaded net r1.0 r1.1 answers (ground (arith, h)) in
    (
      r,
      rw e e',
      record {
        fits = λ w. v.fits (option_kept net ret s a e w);
        found =
            v.found
            ∙ ap (λ (xs : List Bytes). xs ++ searches answers)
                (option_found net ret s a.opt a.long_index a.optarg e)
            ∙ append_assoc s.backup_dirs (search_text a) (searches answers);
        asked = ground (arith, v.asked, option_asked net ret s a.opt a.long_index a.optarg e);
      },
    )

-- If every `--file-chmod` has an octal number, `load_options` reads the whole command line: it fails
-- exactly if one of the answers of `getopt_long` is `h`, `H` or `?`, the directories to search are the arguments of `--search` in
-- their order, whatever was set before, and no number of the settings leaves its range.
pub load_options-Loaded :
    (net : Inet) (s : Settings) (argc : ℕ) (answers : List Answer)
    → 1 < argc
    → all_readable answers ≡ true
    → (r : Bool × Settings) × (load_options net s argc answers ≡ ok r)
      × Loaded true (record s { backup_dirs = [] }) answers r
unfolding load_options
load_options-Loaded net s argc answers h a =
    let (r, e, v) = options-Loaded net true (record s { backup_dirs = [] }) answers a in
    (r, rw (lt→ltb 1 argc h) e, v)

option_unreadable :
    (net : Inet) (ret : Bool) (s : Settings) (opt i : ℕ) (o : Option Bytes)
    → let a : Answer = record { opt = opt; long_index = i; optarg = o } in
      readable (mode_text a) ≡ false → is_ok (option net (ret, s) a) ≡ false
unfolding option
option_unreadable net ret s opt i none h = absurd (ground (arith, h))
option_unreadable net ret s opt i (some arg) h = ground (arith, h)

>>=-assoc {ℓ} :
    {A : Type ℓ} (m : Result A) (f g : A → Result A) → (m >>= λ x. f x >>= g) ≡ ((m >>= f) >>= g)
>>=-assoc (err x) f g = refl
>>=-assoc (ok x) f g = refl

options-append :
    (net : Inet) (r : Bool × Settings) (before after : List Answer)
    → options net r (before ++ after) ≡ (options net r before >>= λ r'. options net r' after)
options-append net r [] after = refl
options-append net r (a ∷ before) after =
    >>=-congr (option net r a) _ _ (λ r'. options-append net r' before after)
    ∙ >>=-assoc (option net r a) (λ r'. options net r' before) (λ r'. options net r' after)

-- A `--file-chmod` without an octal number makes `load_options` throw, whatever follows it, while a
-- bad number of any other option is passed over.
pub load_options_bad_mode :
    (net : Inet) (s : Settings) (argc : ℕ) (before after : List Answer) (a : Answer)
    → 1 < argc
    → all_readable before ≡ true
    → readable (mode_text a) ≡ false
    → (f : Fault) × (load_options net s argc (before ++ a ∷ after) ≡ err f)
unfolding load_options
load_options_bad_mode net s argc before after a h b bad =
    let s0 : Settings = record s { backup_dirs = [] } in
    let (r, e, _) = options-Loaded net true s0 before b in
    let (f, e') =
      fault_of (option net r a) (option_unreadable net r.0 r.1 a.opt a.long_index a.optarg bad) in
    let thrown : options net (true, s0) (before ++ a ∷ after) ≡ err f =
      options-append net (true, s0) before (a ∷ after)
      ∙ ap (λ (x : Result (Bool × Settings)). x >>= λ r'. options net r' (a ∷ after)) e
      ∙ ap (λ (x : Result (Bool × Settings)). x >>= λ r'. options net r' after) e' in
    (f, rw (lt→ltb 1 argc h) thrown)

-- ===== src/Settings/Help/Names.antt =====
-- source/tftpSettings.cpp: the names of the long options in the help.
use server_fw.Prelude.{
  ℕ, ◌≡◌, inl, inr, refl, sym, ap, ◌∙◌, arith, Bool, true, false, Bool-cases, ◌||◌, ◌&&◌, ◌==◌,
  List, [], ◌∷◌, ◌++◌, append_assoc,
}
use server_fw.Prelude.Text.{Bytes, codes}
use server_fw.Common.Strings.Decimal.{to_string}
use server_fw.Settings.Load.{LongOpt, long_opts}
use server_fw.Settings.Help.{lines, intro_lines, option_lines, help_lines, out_id, out_help}

-- A text within another.
abbrev pub Occurs : Bytes → Bytes → Type 0
Occurs x text = (before : Bytes) × (after : Bytes) × (text ≡ before ++ (x ++ after))

abbrev pub AllOccur : List LongOpt → Bytes → Type 0
AllOccur [] text = Unit {0}
AllOccur (o ∷ os) text = Occurs (codes "--" ++ o.name) text × AllOccur os text

-- The search for one.
starts : Bytes → Bytes → Bool
starts [] text = true
starts (c ∷ cs) [] = false
starts (c ∷ cs) (d ∷ ds) = (c == d) && starts cs ds

holds : Bytes → Bytes → Bool
unfolding starts
holds x [] = starts x []
holds x (c ∷ cs) = starts x (c ∷ cs) || holds x cs

starts_sound : (x text : Bytes) → starts x text ≡ true → (after : Bytes) × (text ≡ x ++ after)
unfolding starts
starts_sound [] text h = (text, refl)
starts_sound (c ∷ cs) [] h = cc
starts_sound (c ∷ cs) (d ∷ ds) h =
    let (same, more) : (d ≡ c) × (starts cs ds ≡ true) = ground arith in
    let (after, e) = starts_sound cs ds more in (after, ap (λ (x : ℕ). x ∷ ds) same ∙ ap (◌∷◌ c) e)

holds_sound : (x text : Bytes) → holds x text ≡ true → Occurs x text
unfolding holds
holds_sound x [] h = let (after, e) = starts_sound x [] h in ([], after, e)
holds_sound x (c ∷ cs) h = elim (Bool-cases (starts x (c ∷ cs))) [
  | inl here ↦ let (after, e) = starts_sound x (c ∷ cs) here in ([], after, e)
  | inr there ↦
      let (before, after, e) = holds_sound x cs (rw there at h) in (c ∷ before, after, ap (◌∷◌ c) e)
]

all_hold : List LongOpt → Bytes → Bool
unfolding holds
all_hold [] text = true
all_hold (o ∷ os) text = holds (codes "--" ++ o.name) text && all_hold os text

Occurs-behind : (front x text : Bytes) → Occurs x text → Occurs x (front ++ text)
Occurs-behind front x text (before, after, e) =
    (front ++ before, after, ap (◌++◌ front) e ∙ sym (append_assoc front before (x ++ after)))

AllOccur-behind :
    (os : List LongOpt) (front text : Bytes) → AllOccur os text → AllOccur os (front ++ text)
AllOccur-behind [] front text h = tt
AllOccur-behind (o ∷ os) front text (here, later) =
    (Occurs-behind front (codes "--" ++ o.name) text here, AllOccur-behind os front text later)

AllOccur-line :
    (os : List LongOpt) (l : Bytes) (ls : List Bytes)
    → AllOccur os (lines ls)
    → AllOccur os (lines (l ∷ ls))
AllOccur-line os l ls h =
    AllOccur-behind os l (10 ∷ lines ls) (AllOccur-behind os (10 ∷ []) (lines ls) h)

AllOccur-lines :
    (os : List LongOpt) (ls rest : List Bytes)
    → AllOccur os (lines rest)
    → AllOccur os (lines (ls ++ rest))
AllOccur-lines os [] rest h = h
AllOccur-lines os (l ∷ ls) rest h = AllOccur-line os l (ls ++ rest) (AllOccur-lines os ls rest h)

all_hold_sound : (os : List LongOpt) (text : Bytes) → all_hold os text ≡ true → AllOccur os text
unfolding all_hold
all_hold_sound [] text h = tt
all_hold_sound (o ∷ os) text h =
    let (here, later) : (holds (codes "--" ++ o.name) text ≡ true) × (all_hold os text ≡ true) =
      ground arith in
    (holds_sound (codes "--" ++ o.name) text here, all_hold_sound os text later)

all_named : all_hold long_opts (lines option_lines) ≡ true
unfolding all_hold to_string
all_named = refl

-- The help names every long option that `load_options` takes, for any name of the program.
pub help_names : (app : Bytes) → AllOccur long_opts (out_help app)
unfolding out_help
help_names app = AllOccur-behind long_opts out_id (lines (help_lines app)) (
    AllOccur-lines long_opts (intro_lines app) option_lines
      (all_hold_sound long_opts (lines option_lines) all_named))

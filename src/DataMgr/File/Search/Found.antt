-- ===== src/DataMgr/File/Search/Found.antt =====
-- source/tftpDataMgrFile.cpp: which file a name leads to, and which names are taken for MD5 sums.
use server_fw.Prelude.{
  ℕ, zero, suc, ◌≡◌, ◌↔◌, true, false, List, [], ◌∷◌, ◌++◌, length, Option, none, some, refl, arith,
  subst, append-nil, Bool-cases, Option-cases, ◌⊎◌, inl, inr, ap, sym, ◌∙◌,
}
use server_fw.Prelude.Text.{Bytes}
use server_fw.Settings.{Settings, get_root_dir, get_serach_dir}
use server_fw.DataMgr.File.Search.{
  is_hex, hex_step, hex_run, sum_step, search_sum, is_whole, match_md5, first_found, look_name,
  full_search_name, Files, path_join,
}

-- A directory has the file of a name if there is a regular file where the two are joined.
pub record HasFile (fs : Files) (name dir file : Bytes) : Type 0 where
  pub path : file ≡ path_join dir name
  pub present : fs.exists (path_join dir name) ≡ true
  pub regular : fs.is_regular_file (path_join dir name) ≡ true

-- No directory of a list has a regular file of the name.
abbrev pub NoneHas : Files → Bytes → List Bytes → Type 0
NoneHas fs name [] = Unit {0}
NoneHas fs name (dir ∷ dirs) =
    ((fs.exists (path_join dir name) ≡ false) ⊎ (fs.is_regular_file (path_join dir name) ≡ false))
    × NoneHas fs name dirs

-- The first directory that has the file, and the file.
pub record IsFirst (fs : Files) (name : Bytes) (dirs : List Bytes) (file : Bytes) : Type 0 where
  pub before : List Bytes
  pub dir : Bytes
  pub after : List Bytes
  pub split : dirs ≡ before ++ dir ∷ after
  pub has : HasFile fs name dir file
  pub none_before : NoneHas fs name before

look_name-found :
    (fs : Files) (name dir : Bytes) {file : Bytes}
    → look_name fs name dir ≡ some file
    → HasFile fs name dir file
look_name-found fs name dir e = record {
  path = ground (arith, e);
  present = ground (arith, e);
  regular = ground (arith, e);
}

look_name-none :
    (fs : Files) (name dir : Bytes)
    → look_name fs name dir ≡ none
    → (fs.exists (path_join dir name) ≡ false) ⊎ (fs.is_regular_file (path_join dir name) ≡ false)
look_name-none fs name dir e = elim (Bool-cases (fs.exists (path_join dir name))) [
  | inr n ↦ inl n
  | inl y ↦ elim (Bool-cases (fs.is_regular_file (path_join dir name))) [
    | inr n ↦ inr n
    | inl z ↦ absurd (ground (arith, y, z, e))
  ]
]

first_found-skip :
    (look : Bytes → Option Bytes) (dir : Bytes) (dirs : List Bytes)
    → look dir ≡ none
    → first_found look (dir ∷ dirs) ≡ first_found look dirs
first_found-skip look dir dirs n = ground arith

first_found-here :
    (look : Bytes → Option Bytes) (dir : Bytes) (dirs : List Bytes) {file : Bytes}
    → look dir ≡ some file
    → first_found look (dir ∷ dirs) ≡ some file
first_found-here look dir dirs e = ground arith

first_found-cases :
    (fs : Files) (name : Bytes) (dirs : List Bytes)
    → ((first_found (look_name fs name) dirs ≡ none) × NoneHas fs name dirs)
      ⊎ ((file : Bytes) × (first_found (look_name fs name) dirs ≡ some file)
          × IsFirst fs name dirs file)
first_found-cases fs name [] = inl (refl, tt)
first_found-cases fs name (dir ∷ dirs) = elim (Option-cases (look_name fs name dir)) [
  | inl n ↦
      let skip = first_found-skip (look_name fs name) dir dirs n in
      elim (first_found-cases fs name dirs) [
        | inl (e, a) ↦ inl (skip ∙ e, (look_name-none fs name dir n, a))
        | inr (file, e, f) ↦ inr (
          file,
          skip ∙ e,
          record {
            before = dir ∷ f.before;
            dir = f.dir;
            after = f.after;
            split = ap (◌∷◌ dir) f.split;
            has = f.has;
            none_before = (look_name-none fs name dir n, f.none_before);
          },
        )
      ]
  | inr (file, e) ↦ inr (
    file,
    first_found-here (look_name fs name) dir dirs e,
    record {
      before = [];
      dir = dir;
      after = dirs;
      split = refl;
      has = look_name-found fs name dir e;
      none_before = tt;
    },
  )
]

-- A file that is asked for by its name is looked for in the root directory and then in the search
-- directories, in their order: the result is the path in the first directory that has a regular file
-- of that name, and there is none only if no directory has one.
pub full_search_name_order :
    (fs : Files) (s : Settings) (name : Bytes)
    → ((full_search_name fs s name ≡ none) × NoneHas fs name (get_root_dir s ∷ get_serach_dir s))
      ⊎ ((file : Bytes) × (full_search_name fs s name ≡ some file)
          × IsFirst fs name (get_root_dir s ∷ get_serach_dir s) file)
unfolding full_search_name
full_search_name_order fs s name = first_found-cases fs name (get_root_dir s ∷ get_serach_dir s)

abbrev pub AllHex : Bytes → Type 0
AllHex [] = Unit {0}
AllHex (c ∷ cs) = (is_hex c ≡ true) × AllHex cs

hex_run_complete : (n : ℕ) (cs : Bytes) → length cs ≡ n → AllHex cs → hex_run n cs ≡ some (cs, [])
hex_run_complete zero [] h a = refl
hex_run_complete zero (c ∷ cs) h a = absurd (omega arith)
hex_run_complete (suc n) [] h a = absurd (omega arith)
hex_run_complete (suc n) (c ∷ cs) h (x, a) = rw (hex_run_complete n cs (omega arith) a) (rw x refl)

-- What a match of a run consists of.
abbrev IsRun : ℕ → Bytes → Bytes → Bytes → Type 0
IsRun n cs run rest = (cs ≡ run ++ rest) × (length run ≡ n) × AllHex run

hex_step-true : (c : ℕ) (r t : Bytes) → is_hex c ≡ true → hex_step c (some (r, t)) ≡ some (c ∷ r, t)
hex_step-true c r t x = rw x refl

hex_step-false : (c : ℕ) (r t : Bytes) → is_hex c ≡ false → hex_step c (some (r, t)) ≡ none
hex_step-false c r t x = rw x refl

some-injective : {x y : Bytes × Bytes} → some x ≡ some y → x ≡ y
some-injective e = cc

none-ne-some : {x : Bytes × Bytes} → none ≡ some x → ⊥
none-ne-some e = cc

hex_step-IsRun :
    (n c : ℕ) (cs r t : Bytes) {run rest : Bytes}
    → IsRun n cs r t
    → hex_step c (some (r, t)) ≡ some (run, rest)
    → IsRun (suc n) (c ∷ cs) run rest
hex_step-IsRun n c cs r t {run} {rest} (e, k, a) q = elim (Bool-cases (is_hex c)) [
  | inr x ↦ absurd (none-ne-some (sym (hex_step-false c r t x) ∙ q))
  | inl x ↦
      subst (λ (p : Bytes × Bytes). IsRun (suc n) (c ∷ cs) p.0 p.1)
        (some-injective (sym (hex_step-true c r t x) ∙ q)) (ap (◌∷◌ c) e, ap suc k, (x, a))
]

hex_run-IsRun :
    (n : ℕ) (cs : Bytes) {run rest : Bytes} → hex_run n cs ≡ some (run, rest) → IsRun n cs run rest
hex_run-IsRun zero cs e = ground arith
hex_run-IsRun (suc n) [] e = ground arith
hex_run-IsRun (suc n) (c ∷ cs) {run} {rest} e = elim (Option-cases (hex_run n cs)) [
  | inl q ↦ ground (arith, q)
  | inr ((r, t), q) ↦ hex_step-IsRun n c cs r t (hex_run-IsRun n cs q) (ap (hex_step c) (sym q) ∙ e)
]

sum_step-front :
    (c : ℕ) (found : Option (Bytes × Bytes)) (later : Option (Bytes × Bytes × Bytes))
    {run rest : Bytes}
    → sum_step c found later ≡ some ([], run, rest)
    → found ≡ some (run, rest)
sum_step-front c none none e = cc
sum_step-front c none (some (front, run, rest)) e = ground arith
sum_step-front c (some (run, rest)) later e = ground arith

is_whole-some :
    (o : Option (Bytes × Bytes × Bytes))
    → is_whole o ≡ true
    → (run : Bytes) × (o ≡ some ([], run, []))
is_whole-some none e = absurd (ground arith)
is_whole-some (some ([], run, [])) e = (run, refl)
is_whole-some (some ([], run, (c ∷ cs))) e = absurd (ground arith)
is_whole-some (some ((c ∷ cs), run, rest)) e = absurd (ground arith)

match_md5-IsRun :
    (c : ℕ) (cs : Bytes) → match_md5 (c ∷ cs) ≡ true → (length (c ∷ cs) ≡ 32) × AllHex (c ∷ cs)
unfolding match_md5 search_sum
match_md5-IsRun c cs e =
    let (run, q) = is_whole-some (search_sum (c ∷ cs)) e in
    let (same, size, hex) =
      hex_run-IsRun 32 (c ∷ cs) {run = run} {rest = []}
        (sum_step-front c (hex_run 32 (c ∷ cs)) (search_sum cs) q) in
    let all : c ∷ cs ≡ run = same ∙ append-nil run in
    (ap length all ∙ size, subst AllHex (sym all) hex)

-- A name counts as an MD5 sum exactly if it is 32 hexadecimal digits, of either case, and nothing
-- else.
pub match_md5_iff : (val : Bytes) → (match_md5 val ≡ true) ↔ ((length val ≡ 32) × AllHex val)
unfolding match_md5 search_sum
match_md5_iff [] = ground arith
match_md5_iff (c ∷ cs) = (
  match_md5-IsRun c cs,
  λ (n, h).
      ap (λ (o : Option (Bytes × Bytes)). is_whole (sum_step c o (search_sum cs)))
        (hex_run_complete 32 (c ∷ cs) n h),
)

-- ===== src/DataMgr/File/Search.antt =====
-- source/tftpDataMgrFile.cpp: `full_search_name`, `full_search_md5` and `search_by_md5`; and
-- source/tftpDataMgr.cpp: `match_md5`.
pub mod Found
use server_fw.Prelude.{
  ℕ, zero, suc, ◌≡◌, ◌↔◌, Bool, true, false, ◌&&◌, ◌||◌, List, [], ◌∷◌, ◌++◌, length, take, put,
  replicate, leb, ltb, ◌==◌, if◌then◌else◌, Option, none, some, refl, arith, subst, append-nil,
  Bool-cases, Option-cases, ◌⊎◌, inl, inr, ap, sym, ◌∙◌,
}
use server_fw.Prelude.Text.{Bytes, codes, text_eq}
use server_fw.Common.Strings.{do_lower}
use server_fw.Settings.{Settings, get_root_dir, get_serach_dir, fin_slash}
use server_fw.SmBuf.{until_zero}

-- What the operating system answers about files. `open_error` is the text of the failure, if opening
-- to read, or to create, fails.
pub record Files : Type 0 where
  pub exists : Bytes → Bool
  pub is_regular_file : Bytes → Bool
  pub is_directory : Bytes → Bool
  pub content : Bytes → Bytes
  pub listing : Bytes → List Bytes
  pub open_error : Bytes → Option Bytes
  pub create_error : Bytes → Option Bytes

-- `operator/=` of two paths: an absolute one takes the place of the other.
abbrev pub path_join : Bytes → Bytes → Bytes
path_join dir [] = if fin_slash dir || length dir == 0 then dir else dir ++ codes "/"
path_join dir (c ∷ cs) =
    if c == b'/'
    then c ∷ cs
    else if fin_slash dir || length dir == 0
    then dir ++ c ∷ cs
    else dir ++ (b'/' ∷ c ∷ cs)

abbrev has : ℕ → Bytes → Bool
has c [] = false
has c (x ∷ xs) = c == x || has c xs

-- The path without its last name, and that name.
abbrev pub split_name : Bytes → Bytes × Bytes
split_name [] = ([], [])
split_name (c ∷ cs) =
    let (dir, name) = split_name cs in
    if c == b'/' || has b'/' cs then (c ∷ dir, name) else ([], c ∷ cs)

-- The stem of a name and its extension, which is what starts at its last dot.
abbrev split_dot : Bytes → Bytes × Bytes
split_dot [] = ([], [])
split_dot (c ∷ cs) =
    let (stem, ext) = split_dot cs in
    if has b'.' cs then (c ∷ stem, ext) else if c == b'.' then ([], c ∷ cs) else (c ∷ cs, [])

-- A dot in front is no extension's, nor are those of `..`.
abbrev name_parts : Bytes → Bytes × Bytes
name_parts name =
    if text_eq name (codes "..") || length (split_dot name).0 == 0
    then (name, [])
    else split_dot name

abbrev pub extension : Bytes → Bytes
extension path = (name_parts (split_name path).1).1

-- `replace_extension("")`
abbrev pub drop_extension : Bytes → Bytes
drop_extension path = (split_name path).0 ++ (name_parts (split_name path).1).0

abbrev pub replace_filename : Bytes → Bytes → Bytes
replace_filename path name = path_join (split_name path).0 name

abbrev pub is_hex : ℕ → Bool
is_hex c = (leb b'a' c && leb c b'f') || ((leb b'A' c && leb c b'F') || (leb b'0' c && leb c b'9'))

abbrev hex_step : ℕ → Option (Bytes × Bytes) → Option (Bytes × Bytes)
hex_step c none = none
hex_step c (some (run, rest)) = if is_hex c then some (c ∷ run, rest) else none

-- The first `n` bytes, all of them hexadecimal digits, and what follows.
abbrev hex_run : ℕ → Bytes → Option (Bytes × Bytes)
hex_run zero cs = some ([], cs)
hex_run (suc n) [] = none
hex_run (suc n) (c ∷ cs) = hex_step c (hex_run n cs)

abbrev sum_step :
    ℕ → Option (Bytes × Bytes) → Option (Bytes × Bytes × Bytes) → Option (Bytes × Bytes × Bytes)
sum_step c (some (run, rest)) later = some ([], run, rest)
sum_step c none none = none
sum_step c none (some (front, run, rest)) = some (c ∷ front, run, rest)

-- `std::regex_search` for 32 hexadecimal digits: what precedes the first match, the match, and what
-- follows it.
pub search_sum : Bytes → Option (Bytes × Bytes × Bytes)
search_sum [] = none
search_sum (c ∷ cs) = sum_step c (hex_run 32 (c ∷ cs)) (search_sum cs)

-- No prefix and no suffix.
abbrev is_whole : Option (Bytes × Bytes × Bytes) → Bool
is_whole none = false
is_whole (some (front, run, rest)) = length front == 0 && length rest == 0

unfoldable pub match_md5 : Bytes → Bool
unfolding search_sum
match_md5 val = is_whole (search_sum val)

abbrev until_newline : Bytes → Bytes
until_newline [] = []
until_newline (c ∷ cs) = if c == 10 then [] else c ∷ until_newline cs

-- `getline` into a string of 2048 zeros, of which the last is kept.
abbrev pub first_line : Bytes → Bytes
first_line content = put (replicate 2048 0) 0 (take 2047 (until_newline content))

-- A path is given to the system up to its first zero.
abbrev exists_path : Files → Bytes → Bool
exists_path fs path = fs.exists (until_zero path)

-- What a file with an extension `.md5` in any case leads to.
abbrev md5_target : Files → Bytes → Bytes → Option Bytes
md5_target fs md5sum curr = elim (search_sum (first_line (fs.content curr))) [
  | none ↦ none
  | some (_, run, rest) ↦
      if text_eq run md5sum
      then (if exists_path fs (drop_extension curr)
          then some (drop_extension curr)
          else if ltb 0 (length rest)
              && exists_path fs (replace_filename (drop_extension curr) rest)
          then some (replace_filename (drop_extension curr) rest)
          else none)
      else none
]

-- The loop over the entries below a directory.
abbrev search_entries : Files → Bytes → List Bytes → Option Bytes
search_entries fs md5sum [] = none
search_entries fs md5sum (curr ∷ rest) =
    let later = search_entries fs md5sum rest in
    if text_eq (do_lower (extension curr)) (codes ".md5")
    then elim (md5_target fs md5sum curr) [ none ↦ later | some file ↦ some file ]
    else later

unfoldable pub search_by_md5 : Files → Bytes → Bytes → Option Bytes
search_by_md5 fs path md5sum = search_entries fs md5sum (fs.listing path)

abbrev search_dir : Files → Bytes → Bytes → Option Bytes
search_dir fs md5sum dir =
    if fs.exists dir && fs.is_directory dir then search_by_md5 fs dir md5sum else none

-- The first result along the directories.
abbrev pub first_found : (Bytes → Option Bytes) → List Bytes → Option Bytes
first_found look [] = none
first_found look (dir ∷ dirs) =
    let later = first_found look dirs in elim (look dir) [ none ↦ later | some file ↦ some file ]

unfoldable pub full_search_md5 : Files → Settings → Bytes → Option Bytes
full_search_md5 fs s md5sum = first_found (search_dir fs md5sum) (get_root_dir s ∷ get_serach_dir s)

abbrev pub look_name : Files → Bytes → Bytes → Option Bytes
look_name fs name dir =
    let file = path_join dir name in
    if fs.exists file && fs.is_regular_file file then some file else none

unfoldable pub full_search_name : Files → Settings → Bytes → Option Bytes
full_search_name fs s name = first_found (look_name fs name) (get_root_dir s ∷ get_serach_dir s)

-- ===== src/GitStatus.antt =====
-- apps/web/src/lib/gitStatus.ts: the badges of changed files, the branches, and a file's diff. What
-- `coderExec` returns, or throws, is an input.
pub mod Quote
use Prim.Native.Nat.{◌<◌, ◌-◌}
use ninfer_studio.Base.{
  ℕ, Text, units, text_eq, trim, is_blank, starts_with, includes, split_lines, take, drop, length,
  ltb, ◌==◌, filter, map, not, ◌&&◌, ◌||◌, if◌then◌else◌, List, [], ◌∷◌, ◌++◌, Option, none, some,
  Bool, true, false,
}

-- `r` of `coderExec`, or what it throws.
pub data Exec : Type 0 where
  finished : ℕ → Text → Text → Exec
  threw : Text → Exec

-- `GitFileStatus`
pub data GitFileStatus : Type 0 where
  modified added untracked deleted renamed : GitFileStatus

-- The text behind the first `p`.
unfoldable pub text_behind : Text → Text → Option Text
unfolding starts_with
text_behind p [] = none
text_behind p (c ∷ s) =
    let later = text_behind p s in
    if starts_with p (c ∷ s) then some (drop (length p) (c ∷ s)) else later

-- The text in front of the first line feed, and the text behind it.
unfoldable pub current_line : Text → Text
current_line [] = []
current_line (c ∷ s) = let more = current_line s in if c == 10 then [] else c ∷ more

-- `parseBranchList`: the current branch, and all of them.
unfoldable pub parse_branch_list : Text → Text × List Text
unfolding split_lines current_line text_behind trim
parse_branch_list stdout =
    let rest : Text = elim (text_behind (10 ∷ []) stdout) [ none ↦ [] | some s ↦ s ] in
    (trim (current_line stdout), filter (λ s. not (is_blank s)) (map trim (split_lines rest)))

unfoldable pub to_letter : Text → Option GitFileStatus
unfolding includes units text_eq
to_letter xy =
    if text_eq xy (units "??")
    then some untracked
    else if includes (units "M") xy
    then some modified
    else if includes (units "A") xy
    then some added
    else if includes (units "D") xy
    then some deleted
    else if includes (units "R") xy || includes (units "C") xy
    then some renamed
    else none

-- `replace(/\\c/g, c)` for a character `c`.
unfoldable pub unescape : ℕ → Text → Text
unescape c [] = []
unescape c (d ∷ []) = d ∷ []
unescape c (d ∷ e ∷ s) =
    let rest = unescape c s in
    let next = unescape c (e ∷ s) in if d == 92 && e == c then c ∷ rest else d ∷ next

unfoldable pub ends_with_quote : Text → Bool
ends_with_quote [] = false
ends_with_quote (c ∷ []) = c == b'"'
ends_with_quote (c ∷ d ∷ s) = ends_with_quote (d ∷ s)

-- A path in C quotes.
unfoldable pub plain_path : Text → Text
unfolding unescape ends_with_quote starts_with
plain_path path =
    if starts_with (b'"' ∷ []) path && ends_with_quote path
    then unescape 92 (unescape b'"' (take (length path - 2) (drop 1 path)))
    else path

-- The new path of a rename.
unfoldable pub path_of : Text → Text
unfolding text_behind plain_path units
path_of line =
    let path = drop 3 line in
    plain_path (elim (text_behind (units " -> ") path) [ none ↦ path | some new ↦ new ])

-- A `Map` from paths.
abbrev pub Badges : Type 0
Badges = List (Text × GitFileStatus)

unfoldable pub put_badge : Text → GitFileStatus → Badges → Badges
unfolding text_eq
put_badge path b [] = (path, b) ∷ []
put_badge path b ((p, old) ∷ badges) =
    let rest = put_badge path b badges in
    if text_eq p path then (p, b) ∷ badges else (p, old) ∷ rest

unfoldable pub badge_of : Text → Option (Text × GitFileStatus)
unfolding to_letter path_of
badge_of line =
    let path = path_of line in
    elim (if ltb (length line) 4 then none else to_letter (take 2 line)) [
      | none ↦ none
      | some letter ↦ if is_blank path then none else some (path, letter)
    ]

unfoldable pub put_lines : List Text → Badges → Badges
unfolding badge_of put_badge
put_lines [] badges = badges
put_lines (line ∷ ls) badges =
    put_lines ls (elim (badge_of line) [ none ↦ badges | some (path, b) ↦ put_badge path b badges ])

-- `fetchGitStatusMap`
unfoldable pub git_status_map : Exec → Badges
unfolding put_lines split_lines
git_status_map (threw message) = []
git_status_map (finished code stdout stderr) =
    if code == 0 then put_lines (split_lines stdout) [] else []

abbrev pub diff_max : ℕ
diff_max = 60_000

-- `CoderDiffResult`
pub record CoderDiffResult : Type 0 where
  pub files : List Text
  pub diff : Text
  pub error : Option Text
  pub truncated : Bool

abbrev pub failed_diff : Text → CoderDiffResult
failed_diff message = record { files = []; diff = []; error = some message; truncated = false }

abbrev pub or_text : Text → Text → Text
or_text a b = if is_blank a then b else a

-- `fetchFileDiff`
unfoldable pub fetch_file_diff : Text → Exec → CoderDiffResult
unfolding units trim
fetch_file_diff path (threw message) = failed_diff message
fetch_file_diff path (finished code stdout stderr) =
    if not (code == 0) && is_blank stdout
    then failed_diff (or_text (take 2000 (or_text stderr stdout)) (units "diff failed"))
    else if is_blank (trim stdout)
    then record { files = []; diff = []; error = none; truncated = false }
    else record {
      files = path ∷ [];
      diff = if ltb diff_max (length stdout) then take diff_max stdout else stdout;
      error = none;
      truncated = ltb diff_max (length stdout);
    }

-- ===== src/Tabs/Git.antt =====
-- tabModel.ts, `refreshGitStatus`.
use ninfer_studio.Base.{
  ◌+◌, String, ◌==◌, Dict, get, if◌then◌else◌, List, [], ◌∷◌, map, Option, none, some, ◌&&◌,
}
use ninfer_studio.Tabs.State.{Tab, Tabs, GitQuery, Request, is_ready}

-- `++gitSeqRef.current`, and `fetchGitStatusMap`
unfoldable pub refresh_git_status : Tabs → Tabs × List Request
refresh_git_status s =
    if is_ready s
    then (
      record s { git_seq = s.git_seq + 1 },
      Request.git (record { gen = s.gen; seq = s.git_seq + 1 }) ∷ [],
    )
    else (s, [])

abbrev pub with_letter : Dict String → Tab → Tab
with_letter letters t = record t { git_status = get t.path letters }

-- The answer, or `none` where it throws.
unfoldable pub git_replied : Tabs → GitQuery → Option (Dict String) → Tabs
git_replied s q none = s
git_replied s q (some letters) =
    if q.gen == s.gen && q.seq == s.git_seq
    then record s { status_map = letters; tabs = map (with_letter letters) s.tabs }
    else s

-- ===== src/Tabs/Save.antt =====
-- tabModel.ts, `saveTab` and `runLint`.
use mathlib.Core.List.{reverse}
use ninfer_studio.Base.{
  ℕ, ◌+◌, Text, units, text_eq, starts_with, ltb, leb, ◌==◌, String, get, put, or_else,
  if◌then◌else◌, List, [], ◌∷◌, ◌++◌, map, filter, Option, none, some, Bool, true, false, not, ◌&&◌,
  ◌||◌, is_blank,
}
use ninfer_studio.FileKind.{FileKind, code}
use ninfer_studio.Tabs.State.{
  ready, Tab, Diag, Tabs, Write, Lint, Request, is_ready, is_set, patch_tab, find_tab, seq_of,
  live_doc,
}
use ninfer_studio.Tabs.Git.{refresh_git_status}
use ninfer_studio.Tabs.Disk.{Reply, threw, body, settled, api_error_body}

abbrev pub is_code : FileKind → Bool
is_code code = true
is_code _ = false

pub held_message : Text
held_message =
    units
      "Save held — the control plane is still on another workspace (run in flight). Try again once the switch completes."

-- The target of a save: `id ?? activeTabIdRef.current`.
abbrev pub target_of : Option String → Option String → Option String
target_of none active = active
target_of (some id) active = some id

abbrev pub can_save : Tab → Bool
can_save t = is_code t.kind && not t.truncated && t.dirty

unfoldable pub save_found : Tabs → Tab → Tabs × List Request
save_found s t =
    let doc = live_doc s t in
    let seq = seq_of t.id s.lint_seq + 1 in
    if not (can_save t)
    then (s, [])
    else if text_eq doc t.base
    then (record s { tabs = patch_tab t.id (λ x. record x { dirty = false }) s.tabs }, [])
    else if not (is_ready s)
    then (
      record s { tabs = patch_tab t.id (λ x. record x { error_text = some held_message }) s.tabs },
      [],
    )
    else (
      record s { lint_seq = put t.id seq s.lint_seq },
      Request.write (record { id = t.id; path = t.path; doc = doc; gen = s.gen; seq = seq }) ∷ [],
    )

-- `saveTab`, up to the write.
unfoldable pub save_tab : Tabs → Option String → Tabs × List Request
unfolding save_found
save_tab s id =
    let target = target_of id s.active in
    if is_set target
    then elim (find_tab (or_else target "") s.tabs) [ none ↦ (s, []) | some t ↦ save_found s t ]
    else (s, [])

-- `new TextEncoder().encode(doc).length`: a surrogate pair takes four bytes, and a lone surrogate
-- is replaced by a character of three.
unfoldable pub utf8_length : Text → ℕ
utf8_length [] = 0
utf8_length (c ∷ []) = if ltb c 128 then 1 else if ltb c 2048 then 2 else 3
utf8_length (c ∷ d ∷ s) =
    let rest = utf8_length (d ∷ s) in
    let pair = utf8_length s in
    if ltb c 128
    then 1 + rest
    else if ltb c 2048
    then 2 + rest
    else if leb 55296 c && leb c 56319 && leb 56320 d && leb d 57343
    then 4 + pair
    else 3 + rest

-- Has the editor taken input since the document was sent?
abbrev pub diverged : Option Text → Text → Bool
diverged none doc = false
diverged (some live) doc = not (text_eq live doc)

abbrev pub patch_saved : Option Text → Text → Tab → Tab
patch_saved live doc t = record t {
  dirty = diverged live doc;
  doc = or_else live doc;
  base = doc;
  base_bytes = some (utf8_length doc);
  disk_changed = false;
  status = ready;
  diags = [];
  error_text = none;
}

-- `runLint`, up to the command.
unfoldable pub run_lint : Tabs → Lint → Tabs × List Request
run_lint s l = (
  record s { tabs = patch_tab l.id (λ t. record t { linting = true }) s.tabs },
  Request.lint l ∷ [],
)

-- Two handlers in a row, with the requests of both.
abbrev pub and_then : Tabs × List Request → (Tabs → Tabs × List Request) → Tabs × List Request
and_then a f = ((f a.0).0, a.1 ++ (f a.0).1)

-- The write was made; `has_lint` says whether a lint command is configured.
abbrev pub after_write : Tabs → Write → Tabs
after_write s w =
    let live = get w.id s.docs in
    record s {
      docs = put w.id (or_else live w.doc) s.docs;
      tabs = patch_tab w.id (patch_saved live w.doc) s.tabs;
    }

abbrev pub lint_of : Write → Lint
lint_of w = record { id = w.id; path = w.path; gen = w.gen; seq = w.seq }

unfoldable pub write_done : Tabs → Write → Bool → Tabs × List Request
unfolding refresh_git_status run_lint
write_done s w has_lint =
    and_then (refresh_git_status (after_write s w))
      (λ s'. if has_lint then run_lint s' (lint_of w) else (s', []))

-- The answer to a write. One that was sent for an older workspace changes nothing.
unfoldable pub write_replied : Tabs → Write → Reply → Bool → Tabs × List Request
unfolding settled api_error_body
write_replied s w reply has_lint =
    if w.gen == s.gen
    then elim (settled reply) [
      | threw m ↦ (
        record s {
          tabs =
              patch_tab w.id (λ x. record x { error_text = some (units "Save failed: " ++ m) })
                s.tabs;
        },
        [],
      )
      | body b ↦ write_done s w has_lint
    ]
    else (s, [])

-- `\` to `/`
abbrev norm : Text → Text
norm = map (λ c. if c == 92 then b'/' else c)

abbrev ends_with : Text → Text → Bool
ends_with suffix s = starts_with (reverse suffix) (reverse s)

-- Is the diagnostic about the file at `path`?
abbrev pub about : Text → Diag → Bool
about path d = elim d.file [
  | none ↦ false
  | some file ↦
      not (is_blank file)
      && (text_eq (norm file) (norm path)
          || ends_with (b'/' ∷ norm path) (norm file)
          || ends_with (b'/' ∷ norm file) (norm path))
]

-- What the lint command did: it failed with parsed diagnostics, it passed, or it could not be run.
pub data LintReply : Type 0 where
  failed : List Diag → LintReply
  passed crashed : LintReply

abbrev pub patch_linted : Text → LintReply → Tab → Tab
patch_linted path (failed all) t = record t { linting = false; diags = filter (about path) all }
patch_linted path passed t = record t { linting = false; diags = [] }
patch_linted path crashed t = record t { linting = false }

unfoldable pub lint_replied : Tabs → Lint → LintReply → Tabs
lint_replied s l reply =
    if l.gen == s.gen && l.seq == seq_of l.id s.lint_seq
    then record s { tabs = patch_tab l.id (patch_linted (units l.path) reply) s.tabs }
    else s

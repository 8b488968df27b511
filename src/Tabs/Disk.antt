-- ===== src/Tabs/Disk.antt =====
-- tabModel.ts, `readDisk`: sending a read, and its answer.
use ninfer_studio.Base.{
  ℕ, ◌+◌, Text, units, text_eq, starts_with, is_blank, String, ◌==◌, Dict, put, or_else,
  if◌then◌else◌, List, [], ◌∷◌, map, any, Option, none, some, Bool, true, false, not, ◌&&◌, ◌||◌,
}
use ninfer_studio.FileKind.{FileKind, image, binary, to_lower}
use ninfer_studio.Tabs.State.{
  Status, loading, ready, error, notfound, conflict, Tab, Tabs, Read, Request, has_id, is_ready,
  patch_tab, push_doc_tab, seq_of,
}

-- What `coderRead` and `coderReadBase64` resolve to, or the message that they throw.
pub record Body : Type 0 where
  pub error_field : Option Text
  pub content : Option Text
  pub binary : Option Bool
  pub truncated : Bool
  pub data_url : Option Text
  pub size : Option ℕ
  pub mime : Option String

pub data Reply : Type 0 where
  threw : Text → Reply
  body : Body → Reply

-- `apiErrorBody`
unfoldable pub api_error_body : Body → Option Text
api_error_body b = elim b.content [
  | some _ ↦ none
  | none ↦ elim b.binary [
    | some _ ↦ none
    | none ↦ elim b.data_url [ some _ ↦ none | none ↦ b.error_field ]
  ]
]

-- An error body counts as thrown.
unfoldable pub settled : Reply → Reply
settled (threw m) = threw m
settled (body b) = elim (api_error_body b) [
  | none ↦ body b
  | some m ↦ if is_blank m then body b else threw m
]

unfoldable pub includes : Text → Text → Bool
includes p [] = is_blank p
includes p (c ∷ s) = starts_with p (c ∷ s) || includes p s

-- `NOTFOUND_RE`, which ignores case
unfoldable pub says_notfound : Text → Bool
unfolding includes to_lower starts_with units
says_notfound m =
    includes (units "not found") (map to_lower m)
    || includes (units "enoent") (map to_lower m)
    || includes (units "http 404") (map to_lower m)

abbrev pub is_loading : Status → Bool
is_loading loading = true
is_loading _ = false

-- `stillValid`
unfoldable pub still_valid : Tabs → Read → Bool
still_valid s r = r.gen == s.gen && r.seq == seq_of r.id s.read_seq

abbrev pub is_binary : FileKind → Bool
is_binary binary = true
is_binary _ = false

abbrev pub is_image : FileKind → Bool
is_image image = true
is_image _ = false

send_read : Tabs → Read → Tabs × List Request
send_read s r = (record s { read_seq = put r.id r.seq s.read_seq }, Request.read r ∷ [])

abbrev new_read : Tabs → String → String → FileKind → Bool → Read
new_read s id path kind force = record {
  id = id;
  path = path;
  kind = kind;
  force = force;
  gen = s.gen;
  seq = seq_of id s.read_seq + 1;
}

abbrev pub set_binary : Tab → Tab
set_binary t = record t { status = Status.binary }

-- The first half of `readDisk`, up to its first `await`.
unfoldable pub read_disk : Tabs → String → String → FileKind → Bool → Tabs × List Request
unfolding send_read
read_disk s id path kind force =
    if not (is_ready s)
    then (s, [])
    else if is_binary kind
    then (record s { tabs = patch_tab id set_binary s.tabs }, [])
    else send_read s (new_read s id path kind force)

-- A disk that does not fit is not put over unsaved edits: the banner goes up.
abbrev pub in_conflict : Tab → Tab
in_conflict t = record t { disk_changed = true; status = conflict }

abbrev as_disk : Text → Bool → Tab → Tab
as_disk content truncated t = record t {
  status = ready;
  doc = content;
  base = content;
  truncated = truncated;
  dirty = false;
  disk_changed = false;
  diags = [];
  linting = false;
  error_text = none;
}

-- Does a truncated answer go into the tab?
abbrev pub adopts_truncated : Bool → Tab → Bool
adopts_truncated force t = not (t.dirty && not force && not t.truncated)

abbrev pub patch_truncated : Bool → Text → Tab → Tab
patch_truncated force content t =
    if adopts_truncated force t then as_disk content true t else in_conflict t

-- Does a whole file go into the tab?
abbrev pub adopts : Bool → Text → Tab → Bool
adopts force content t =
    t.truncated || is_loading t.status || text_eq content t.base || force || not t.dirty

abbrev pub patch_whole : Bool → Text → Tab → Tab
patch_whole force content t =
    if t.truncated
    then as_disk content false t
    else if is_loading t.status
    then record t {
      status = ready;
      doc = content;
      base = content;
      disk_changed = false;
      error_text = none;
    }
    else if text_eq content t.base || force || not t.dirty
    then record t {
      doc = content;
      base = content;
      disk_changed = false;
      status = ready;
      dirty = (if force then false else t.dirty);
      error_text = none;
      linting = false;
    }
    else in_conflict t

-- `docRef.current.set(id, content)` inside the updater: it runs if a tab takes the content.
abbrev pub docs_after : (Tab → Bool) → String → Text → Tabs → Dict Text
docs_after takes id content s =
    if any (λ t. has_id id t && takes t) s.tabs then put id content s.docs else s.docs

abbrev pub patch_failed : Text → Tab → Tab
patch_failed m t =
    if says_notfound m
    then record t { status = notfound; error_text = none }
    else if is_loading t.status
    then record t { status = error; error_text = some m }
    else record t { disk_changed = true }

unfoldable pub read_failed : Tabs → Read → Text → Tabs
read_failed s r m = record s { tabs = patch_tab r.id (patch_failed m) s.tabs }

unfoldable pub read_content : Tabs → Read → Body → Tabs
read_content s r b =
    let content = or_else b.content [] in
    if or_else b.binary false
    then record s { tabs = patch_tab r.id set_binary s.tabs }
    else if b.truncated
    then record s {
      tabs = push_doc_tab r.id (patch_truncated r.force content) s.tabs;
      docs = docs_after (adopts_truncated r.force) r.id content s;
    }
    else record s {
      tabs = push_doc_tab r.id (patch_whole r.force content) s.tabs;
      docs = docs_after (adopts r.force content) r.id content s;
    }

-- The answer to `coderRead`. An image is read a second time, as a data url.
unfoldable pub read_replied : Tabs → Read → Reply → Tabs × List Request
unfolding read_failed read_content settled api_error_body still_valid
read_replied s r reply =
    if still_valid s r
    then elim (settled reply) [
      | threw m ↦ (read_failed s r m, [])
      | body b ↦ if is_image r.kind then (s, Request.image r ∷ []) else (read_content s r b, [])
    ]
    else (s, [])

abbrev pub set_error : Text → Tab → Tab
set_error m t = record t { status = error; error_text = some m }

abbrev pub with_image : Body → Text → Tab → Tab
with_image b url t = record t {
  status = ready;
  image = some (record { data_url = url; size = or_else b.size 0; mime = or_else b.mime "" });
  base_bytes = some (or_else b.size 0);
}

abbrev pub patch_image : Reply → Tab → Tab
patch_image (threw m) t = set_error m t
patch_image (body b) t =
    let url = or_else b.data_url [] in
    if is_blank url then set_error (units "image read failed") t else with_image b url t

-- The answer to `coderReadBase64`.
unfoldable pub image_replied : Tabs → Read → Reply → Tabs
unfolding settled api_error_body still_valid
image_replied s r reply =
    if still_valid s r
    then record s { tabs = patch_tab r.id (patch_image (settled reply)) s.tabs }
    else s

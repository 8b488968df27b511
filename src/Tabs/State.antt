-- ===== src/Tabs/State.antt =====
-- tabModel.ts: the tab, the state of the hook, and the helpers that patch tabs.
use ninfer_studio.Base.{
  ℕ, ◌+◌, Text, text_eq, String, ◌===◌, Dict, get, or_else, if◌then◌else◌, List, [], ◌∷◌, find,
  Option, none, some, Bool, true, false, ◌&&◌,
}
use ninfer_studio.FileKind.{FileKind, Lang}

pub data Status : Type 0 where
  loading ready error notfound binary conflict : Status

-- `TabDiag`
pub record Diag : Type 0 where
  pub file : Option Text
  pub line : Option ℕ
  pub col : Option ℕ
  pub severity : Option String
  pub message : Text

pub record Image : Type 0 where
  pub data_url : Text
  pub size : ℕ
  pub mime : String

-- `EditorTab`
pub record Tab : Type 0 where
  pub id : String
  pub path : String
  pub kind : FileKind
  pub lang : Lang
  pub doc : Text
  pub doc_rev : ℕ
  pub base : Text
  pub base_bytes : Option ℕ
  pub dirty : Bool
  pub status : Status
  pub error_text : Option Text
  pub truncated : Bool
  pub disk_changed : Bool
  pub diags : List Diag
  pub linting : Bool
  pub git_status : Option String
  pub image : Option Image

-- `WsSnapshot`
pub record Snapshot : Type 0 where
  pub tabs : List Tab
  pub docs : Dict Text
  pub active : Option String

-- The state and the refs of `useFileTabs`; `active_ws` and `backend` are `opts.activeWsDir` and
-- what `opts.backendReady` answers.
pub record Tabs : Type 0 where
  pub active_ws : Option String
  pub backend : Bool
  pub tabs : List Tab
  pub active : Option String
  pub notice : Option Text
  pub status_map : Dict String
  pub gen : ℕ
  pub read_seq : Dict ℕ
  pub git_seq : ℕ
  pub lint_seq : Dict ℕ
  pub docs : Dict Text
  pub per_ws : Dict Snapshot
  pub prev_ws : Option String

-- What the hook sends to the control plane, with what it remembers until the answer.
pub record Read : Type 0 where
  pub id : String
  pub path : String
  pub kind : FileKind
  pub force : Bool
  pub gen : ℕ
  pub seq : ℕ

pub record Write : Type 0 where
  pub id : String
  pub path : String
  pub doc : Text
  pub gen : ℕ
  pub seq : ℕ

pub record Lint : Type 0 where
  pub id : String
  pub path : String
  pub gen : ℕ
  pub seq : ℕ

pub record GitQuery : Type 0 where
  pub gen : ℕ
  pub seq : ℕ

pub data Request : Type 0 where
  read image : Read → Request
  write : Write → Request
  lint : Lint → Request
  git : GitQuery → Request

-- A nonempty string.
abbrev pub is_set : Option String → Bool
is_set none = false
is_set (some s) = if s === "" then false else true

-- `ready`
abbrev pub is_ready : Tabs → Bool
is_ready s = is_set s.active_ws && s.backend

abbrev pub has_id : String → Tab → Bool
has_id id t = t.id === id

abbrev pub find_tab : String → List Tab → Option Tab
find_tab id = find (has_id id)

-- `patchTab`; a patch that gives `null` in the source gives the tab itself here.
unfoldable pub patch_tab : String → (Tab → Tab) → List Tab → List Tab
patch_tab id f [] = []
patch_tab id f (t ∷ ts) = (if has_id id t then f t else t) ∷ patch_tab id f ts

-- `pushDocTab`: a new document bumps `docRev`.
abbrev pub bump_rev : (Tab → Tab) → Tab → Tab
bump_rev f t = if text_eq (f t).doc t.doc then f t else record (f t) { doc_rev = t.doc_rev + 1 }

abbrev pub push_doc_tab : String → (Tab → Tab) → List Tab → List Tab
push_doc_tab id f = patch_tab id (bump_rev f)

-- The number of the newest read, or lint, of a tab.
abbrev pub seq_of : String → Dict ℕ → ℕ
seq_of id m = or_else (get id m) 0

abbrev pub live_doc : Tabs → Tab → Text
live_doc s t = or_else (get t.id s.docs) t.doc

-- ===== src/Message.antt =====
-- apps/web/src/lib/types.ts: `ChatMessage`, `ChatAttachment` and `AgentToolCall`, with the fields that the modelled
-- code reads or writes. An absent list of tool calls is the empty one.
use ninfer_studio.Base.{Text, List, [], Option, none, some, Bool, true, false, String}

pub data Role : Type 0 where
  system user assistant tool : Role

pub record ToolCall : Type 0 where
  pub id : String
  pub name : String
  pub arguments : Text

-- `ChatAttachment`
pub data AttachmentKind : Type 0 where
  image video file : AttachmentKind

pub record Attachment : Type 0 where
  pub kind : AttachmentKind
  pub name : String
  pub data_url : Option Text
  pub path : Option String
  pub content : Option Text

pub record Message : Type 0 where
  pub role : Role
  pub content : Text
  pub reasoning : Text
  pub tool_calls : List ToolCall
  pub tool_call_id : Option String
  pub name : Option String
  pub display_name : Option String
  pub collapsed : Bool
  pub attachments : List Attachment
  -- `meta?.finishReason`
  pub finish_reason : Option String

abbrev pub is_system : Role → Bool
is_system system = true
is_system _ = false

abbrev pub is_user : Role → Bool
is_user user = true
is_user _ = false

abbrev pub is_assistant : Role → Bool
is_assistant assistant = true
is_assistant _ = false

abbrev pub is_tool : Role → Bool
is_tool tool = true
is_tool _ = false

-- An object literal with a role and a content, and nothing else.
abbrev pub plain : Role → Text → Message
plain r t = record {
  role = r;
  content = t;
  reasoning = [];
  tool_calls = [];
  tool_call_id = none;
  name = none;
  display_name = none;
  collapsed = false;
  attachments = [];
  finish_reason = none;
}

-- A harness note: a collapsed user message with a label.
abbrev pub labelled : String → Text → Message
labelled label t = record (plain user t) { display_name = some label; collapsed = true }

-- ===== src/Api/Request/Messages.antt =====
-- api/chat.ts: the messages of `buildChatRequest`.
use Prim.Native.Nat.{◌+◌, ◌-◌, max}
use ninfer_studio.Base.{
  ℕ, Text, units, decimal, trim, is_blank, take, length, replicate, ltb, ◌==◌, String, ◌===◌,
  or_else, if◌then◌else◌, not, ◌&&◌, ◌||◌, any, List, [], ◌∷◌, ◌++◌, Option, none, some, Bool, true,
}
use ninfer_studio.Message.{
  Role, ToolCall, AttachmentKind, Attachment, Message, system, is_system, is_user, is_assistant,
}
use ninfer_studio.Chat.Sanitize.{sanitize_messages_for_api}

-- A part of a content; a text part may carry the cache breakpoint.
pub data Part : Type 0 where
  text_part : Text → Bool → Part
  image_part video_part : Option Text → Part

pub data Content : Type 0 where
  plain_text : Text → Content
  parts : List Part → Content

pub record ApiMessage : Type 0 where
  pub role : Role
  pub content : Content
  pub reasoning_content : Text
  pub tool_calls : List ToolCall
  pub tool_call_id : Option String
  pub name : Option String

abbrev pub max_attachment_chars : ℕ
max_attachment_chars = 30_000

-- The longest of the runs of backquotes, where `run` is the length of the one that is open and
-- `best` that of the longest one before.
unfoldable pub longest_run : ℕ → ℕ → Text → ℕ
longest_run run best [] = max run best
longest_run run best (c ∷ s) =
    let more = longest_run (run + 1) best s in
    let closed = longest_run 0 (max run best) s in if c == b'`' then more else closed

unfoldable pub fence_of : Text → Text
unfolding longest_run
fence_of text = replicate (max 3 (longest_run 0 0 text + 1)) b'`'

unfoldable pub shortened : Text → Text
unfolding units decimal
shortened text =
    if ltb max_attachment_chars (length text)
    then take max_attachment_chars text
      ++ units "\n... [truncated "
      ++ decimal (length text - max_attachment_chars)
      ++ units " bytes]"
    else text

unfoldable pub file_text : Attachment → Text
unfolding shortened fence_of units
file_text a =
    let text = shortened (or_else a.content []) in
    let fence = fence_of text in
    units "\n\n[Attached file: "
    ++ units (or_else a.path a.name)
    ++ units "]\n"
    ++ fence
    ++ (10 ∷ text)
    ++ (10 ∷ fence)
    ++ (10 ∷ [])

-- The part for an attachment; a file that comes first may carry the breakpoint.
unfoldable pub part_of : Bool → List Part → Attachment → Part
unfolding file_text
part_of cached before a = elim a.kind [
  | AttachmentKind.image ↦ image_part a.data_url
  | AttachmentKind.video ↦ video_part a.data_url
  | AttachmentKind.file ↦ text_part (file_text a) (cached && is_blank before)
]

unfoldable pub add_parts : Bool → List Part → List Attachment → List Part
unfolding part_of
add_parts cached before [] = before
add_parts cached before (a ∷ attachments) =
    add_parts cached (before ++ (part_of cached before a ∷ [])) attachments

-- The content, where `cached` says whether the message carries the breakpoint.
unfoldable pub content_of : Bool → Message → Content
unfolding add_parts trim
content_of cached m =
    if not (is_blank m.attachments)
    then parts (
        add_parts cached (if is_blank (trim m.content) then [] else text_part m.content cached ∷ [])
          m.attachments)
    else if cached && not (is_blank (trim m.content))
    then parts (text_part m.content true ∷ [])
    else plain_text m.content

-- `if (s) msg.key = s`
unfoldable pub kept_id : Option String → Option String
kept_id none = none
kept_id (some s) = if s === "" then none else some s

unfoldable pub api_message : Bool → Message → ApiMessage
unfolding content_of kept_id
api_message cached m = record {
  role = m.role;
  content = content_of cached m;
  reasoning_content = if is_assistant m.role then m.reasoning else [];
  tool_calls = m.tool_calls;
  tool_call_id = kept_id m.tool_call_id;
  name = kept_id m.name;
}

-- A user message that says something.
unfoldable pub speaks : Message → Bool
unfolding trim
speaks m = is_user m.role && (not (is_blank (trim m.content)) || not (is_blank m.attachments))

-- The loop; the breakpoint is carried by the last message that speaks. A system message is left out.
unfoldable pub api_messages : Bool → List Message → List ApiMessage
unfolding api_message speaks
api_messages cache [] = []
api_messages cache (m ∷ history) =
    let last = speaks m && not (any speaks history) in
    let rest = api_messages cache history in
    if is_system m.role then rest else api_message (cache && last) m ∷ rest

unfoldable pub system_message : Bool → Text → ApiMessage
system_message cache text = record {
  role = system;
  content = if cache then parts (text_part text true ∷ []) else plain_text text;
  reasoning_content = [];
  tool_calls = [];
  tool_call_id = none;
  name = none;
}

-- `messages`
unfoldable pub request_messages : Bool → Text → List Message → List ApiMessage
unfolding api_messages system_message trim
request_messages cache system_prompt history =
    let text = trim system_prompt in
    let sent = api_messages cache (sanitize_messages_for_api history) in
    if is_blank text then sent else system_message cache text ∷ sent

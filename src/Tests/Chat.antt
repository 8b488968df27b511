-- ===== src/Tests/Chat.antt =====
-- chatHelpers.ts on concrete conversations.
use ninfer_studio.Base.{
  is_blank, ◌+◌, ◌-◌, ◌≤◌, max, units, List, [], ◌∷◌, ◌++◌, filter, replicate, length, take_last,
  sum_of, some, true, false, ◌≡◌, refl, arith,
}
use ninfer_studio.Message.{user, assistant, tool, ToolCall, Message, plain}
use ninfer_studio.Chat.Sanitize.{sanitize_messages_for_api}
use ninfer_studio.Chat.Sanitize.Answered.{Answered, sanitize_messages_for_api-Answered}
use ninfer_studio.Chat.Sanitize.Kept.{
  is_spoken, filter-sanitize_messages_for_api, PairedFrom, sanitize_messages_for_api-not_paired,
}
use ninfer_studio.Chat.Prune.{
  max_cloud_chars, chars, notice, first_part, middle_part, last_part, kept_middle, omit_middle,
  pruned_context,
}
use ninfer_studio.Chat.Prune.Bounds.{pruned_context-last, omit_middle-chars}
use ninfer_studio.Chat.History.{Conversation}
use ninfer_studio.Chat.Provider.{
  subagent, CloudSettings, ProviderParams, resolve_provider_config, resolve_provider_config-model,
}

abbrev read_call : ToolCall
read_call = record { id = "c1"; name = "read"; arguments = units "{}" }

abbrev calling : Message
calling = record (plain assistant []) { tool_calls = read_call ∷ [] }

abbrev orphan : Message
orphan = record (plain tool (units "late")) { tool_call_id = some "c9" }

-- A run that was interrupted before its call was answered, and a result without a call.
abbrev interrupted : List Message
interrupted = plain user (units "hi") ∷ calling ∷ plain user (units "go on") ∷ orphan ∷ []

sanitize_messages_for_api-Answered_example : Answered (sanitize_messages_for_api interrupted)
sanitize_messages_for_api-Answered_example = sanitize_messages_for_api-Answered interrupted

filter-sanitize_messages_for_api_example :
    filter is_spoken (sanitize_messages_for_api interrupted) ≡ filter is_spoken interrupted
filter-sanitize_messages_for_api_example = filter-sanitize_messages_for_api interrupted

sanitize_messages_for_api-not_paired_example :
    ¬ PairedFrom [] (sanitize_messages_for_api (calling ∷ orphan ∷ []))
sanitize_messages_for_api-not_paired_example =
    sanitize_messages_for_api-not_paired calling orphan refl refl refl refl

-- Eight messages of 100,000 characters each.
abbrev long : List Message
long = replicate 8 (plain user (replicate 100000 b'a'))

pruned_context-last_example :
    (front : List Message) × (pruned_context long ≡ front ++ take_last 4 long)
pruned_context-last_example = pruned_context-last long (omega arith)

omit_middle-chars_example :
    sum_of chars (omit_middle long)
    ≤ max max_cloud_chars (sum_of chars (first_part long) + sum_of chars (last_part long))
      + chars (notice (length (middle_part long) - length (kept_middle long)))
omit_middle-chars_example = omit_middle-chars long (omega arith)

abbrev compacted : Conversation
compacted = record {
  messages = interrupted;
  compacted_summary = some (units "so far");
  compacted_count = some 3;
}

abbrev cloud : CloudSettings
cloud = record {
  enabled = true;
  use_for_primary = true;
  use_for_subagent = true;
  smart_tiering = true;
  primary_model = [];
  subagent_model = [];
  default_model = [];
  base_url = units "https://x";
  api_key = units "k";
  extra_headers = [];
}

abbrev light : ProviderParams
light = record {
  primary_provider = [];
  subagent_provider = [];
  provider = [];
  task_weight = units "light";
  force_cloud = false;
  primary_cloud_model = [];
  subagent_cloud_model = [];
  cloud_model = [];
}

resolve_provider_config-model_example :
    is_blank (resolve_provider_config subagent (some cloud) light []).model ≡ false
resolve_provider_config-model_example = resolve_provider_config-model subagent (some cloud) light []

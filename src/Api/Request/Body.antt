-- ===== src/Api/Request/Body.antt =====
-- api/chat.ts: the fields of `buildChatRequest` besides the messages, and `structuredOutputFields`;
-- api/responses.ts: `paramsSupportedByResponses`, and the fields of `buildResponsesBody`.
-- `parse` is `JSON.parse`, `trim_name` is `trim` on the name of a schema.
use ninfer_studio.Base.{
  ℕ, ◌==◌, Text, units, trim, is_blank, String, ◌===◌, Dict, get, put, delete, spread, or_else,
  if◌then◌else◌, not, any, map, List, [], ◌∷◌, ◌++◌, Option, none, some, Bool, true, false,
}
use ninfer_studio.Api.Values.{Json, Items, Members, field, if_truthy, array_of, string_of}

pub data StructuredOutput : Type 0 where
  json_object : StructuredOutput
  json_schema : String → Text → Bool → StructuredOutput
  grammar : String → StructuredOutput
  choice : List String → StructuredOutput
  regex : String → StructuredOutput

-- `ChatParams`, as far as a request reads it.
pub record ChatParams : Type 0 where
  pub thinking : Bool
  pub reasoning_effort : Option String
  pub preserve_thinking : Option Bool
  pub max_tokens : Option ℕ
  pub temperature : Option Json
  pub top_p : Option Json
  pub top_k : Option Json
  pub min_p : Option Json
  pub presence_penalty : Option Json
  pub frequency_penalty : Option Json
  pub seed : Option Json
  pub greedy : Bool
  pub structured_output : Option StructuredOutput
  pub auto_tool_constraints : Bool
  pub parallel_tool_calls : Option Bool

abbrev pub object_of : List (String × Json) → Json
object_of fields = Json.object (members fields)
  where
    members : List (String × Json) → Members
    members [] = Members.no_members
    members ((k, j) ∷ rest) = Members.member k j (members rest)

unfoldable pub strings_of : List String → Items
strings_of [] = Items.no_items
strings_of (s ∷ strings) = Items.item (Json.string s) (strings_of strings)

-- `if (value !== undefined) body.key = value`
abbrev pub put_some : String → Option Json → Dict Json → Dict Json
put_some key none body = body
put_some key (some j) body = put key j body

-- `typeof j === 'object'`, `null` aside
abbrev pub is_object : Json → Bool
is_object (Json.object _) = true
is_object (Json.array _) = true
is_object _ = false

-- The effort that is sent, and whether thinking is enabled.
unfoldable pub effort_of : ChatParams → Option String
effort_of p = elim p.reasoning_effort [ none ↦ none | some s ↦ if s === "" then none else some s ]

unfoldable pub enable_thinking : ChatParams → Bool
unfolding effort_of
enable_thinking p = elim (effort_of p) [ none ↦ p.thinking | some s ↦ not (s === "none") ]

-- `greedy` wins over the sampling parameters.
unfoldable pub put_sampling : ChatParams → Dict Json → Dict Json
unfolding put delete
put_sampling p body =
    if p.greedy
    then delete "min_p"
        (delete "top_k" (put "top_p" (Json.integer 1) (put "temperature" (Json.integer 0) body)))
    else put_some "min_p" p.min_p (put_some "top_k" p.top_k (put_some "top_p" p.top_p body))

unfoldable pub base_fields : String → ChatParams → Dict Json → Dict Json
unfolding spread enable_thinking put effort_of
base_fields model p extra =
    let fields = spread extra (
      ("model", Json.string model)
      ∷ ("stream", Json.boolean true)
      ∷ ("stream_options", object_of (("include_usage", Json.boolean true) ∷ []))
      ∷ ("timings_per_token", Json.boolean true)
      ∷ ("enable_thinking", Json.boolean (enable_thinking p))
      ∷ []) in
    let effort : Option Json = elim (effort_of p) [ none ↦ none | some s ↦ some (Json.string s) ] in
    let kept : Option Json = elim p.preserve_thinking [
      | none ↦ none
      | some b ↦ some (Json.boolean b)
    ] in
    let most : Option Json = elim p.max_tokens [
      | none ↦ none
      | some n ↦ if n == 0 then none else some (Json.integer n)
    ] in
    put_some "max_completion_tokens" most
      (put_some "preserve_thinking" kept (put_some "reasoning_effort" effort fields))

unfoldable pub put_parallel : Option Bool → Dict Json → Dict Json
unfolding put
put_parallel (some false) body = put "parallel_tool_calls" (Json.boolean false) body
put_parallel _ body = body

abbrev pub put_if : Bool → String → Json → Dict Json → Dict Json
put_if true key j body = put key j body
put_if false key j body = body

-- Only for a request that carries tools.
unfoldable pub put_tool_constraints : ChatParams → Dict Json → Dict Json
unfolding get put_parallel put
put_tool_constraints p body =
    let limited =
      put_parallel p.parallel_tool_calls
        (put_if p.auto_tool_constraints "tool_constraints" (Json.string "auto") body) in
    if is_blank (array_of (get "tools" body)) then body else limited

abbrev schema_format : String → Bool → Json → Json
schema_format title strict schema = object_of (
    ("type", Json.string "json_schema")
    ∷ (
      "json_schema",
      object_of (
          ("name", Json.string title)
          ∷ ("schema", schema)
          ∷ (if strict then ("strict", Json.boolean true) ∷ [] else [])),
    )
    ∷ [])

-- A schema that is no object is dropped.
unfoldable pub schema_fields : String → Bool → Option Json → Dict Json
schema_fields title strict none = []
schema_fields title strict (some s) =
    if is_object s then ("response_format", schema_format title strict s) ∷ [] else []

module _ (parse : Text → Option Json) (trim_name : String → String) where
  -- `structuredOutputFields`
  unfoldable pub structured_output_fields : StructuredOutput → Dict Json
  unfolding strings_of schema_fields trim units
  structured_output_fields json_object =
      ("response_format", object_of (("type", Json.string "json_object") ∷ [])) ∷ []
  structured_output_fields (json_schema name schema strict) =
      let title = if trim_name name === "" then "response" else trim_name name in
      schema_fields title strict (parse schema)
  structured_output_fields (grammar g) =
      if is_blank (trim (units g))
      then []
      else ("structured_outputs", object_of (("grammar", Json.string g) ∷ [])) ∷ []
  structured_output_fields (choice choices) =
      if is_blank choices
      then []
      else ("structured_outputs", object_of (("choice", Json.array (strings_of choices)) ∷ [])) ∷ []
  structured_output_fields (regex pattern) =
      ("structured_outputs", object_of (("regex", Json.string pattern) ∷ [])) ∷ []

  unfoldable pub put_structured : Option StructuredOutput → Dict Json → Dict Json
  unfolding structured_output_fields spread
  put_structured none body = body
  put_structured (some so) body = spread body (structured_output_fields so)

  -- The fields of `buildChatRequest`, where `extra` are those that the caller adds.
  unfoldable pub request_fields : String → ChatParams → Dict Json → Dict Json
  unfolding base_fields put_sampling put_tool_constraints put_structured put
  request_fields model p extra =
      let sampled =
        put_sampling p (put_some "temperature" p.temperature (base_fields model p extra)) in
      let penalised = put_some "seed" p.seed (
        put_some "frequency_penalty" p.frequency_penalty
          (put_some "presence_penalty" p.presence_penalty sampled)) in
      put_tool_constraints p (put_structured p.structured_output penalised)

-- `paramsSupportedByResponses`
abbrev is_chosen : Option Json → Bool
is_chosen none = false
is_chosen (some j) = true

unfoldable pub params_supported_by_responses : ChatParams → Bool
params_supported_by_responses p =
    not (any is_chosen (p.top_k ∷ p.min_p ∷ p.presence_penalty ∷ p.frequency_penalty ∷ p.seed ∷ []))

-- `toResponsesReasoning`
unfoldable pub to_responses_reasoning : Dict Json → Option Json
unfolding get
to_responses_reasoning req =
    let effort = or_else (string_of (get "reasoning_effort" req)) "" in
    let sent =
      if effort === "" then none else some (object_of (("effort", Json.string effort) ∷ [])) in
    elim (get "enable_thinking" req) [
      | some (Json.boolean false) ↦ some (object_of (("effort", Json.string "none") ∷ []))
      | _ ↦ sent
    ]

-- `toResponsesTools`, for one tool.
unfoldable pub responses_tool : Json → Json
unfolding field if_truthy
responses_tool t = elim (if_truthy (field "function" t)) [
  | none ↦ t
  | some f ↦ object_of (
      ("type", Json.string "function")
      ∷ (given "name" f ++ (given "description" f ++ given "parameters" f)))
]
  where
    given : String → Json → List (String × Json)
    given key f = elim (field key f) [ none ↦ [] | some j ↦ (key, j) ∷ [] ]

unfoldable pub items_from : List Json → Items
items_from [] = Items.no_items
items_from (j ∷ js) = Items.item j (items_from js)

-- The fields of `buildResponsesBody` besides `input`.
unfoldable pub responses_fields : Dict Json → Dict Json
unfolding to_responses_reasoning responses_tool items_from get put
responses_fields req =
    let body = put_some "model" (get "model" req) (("stream", Json.boolean true) ∷ []) in
    let sampled = put_some "top_p" (get "top_p" req) (
      put_some "temperature" (get "temperature" req) (
        put_some "max_output_tokens" (get "max_completion_tokens" req)
          (put_some "reasoning" (to_responses_reasoning req) body))) in
    let tools = array_of (get "tools" req) in
    if is_blank tools
    then sampled
    else put "tool_choice" (Json.string "auto")
        (put "tools" (Json.array (items_from (map responses_tool tools))) sampled)

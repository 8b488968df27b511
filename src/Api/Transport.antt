-- ===== src/Api/Transport.antt =====
-- api/chat.ts and api/responses.ts: `ChatStreamCallbacks`, `MessageMeta`, and what both transports
-- do with a response before and after its stream. What the clock decides is left out: the rates
-- per second that are computed at the end, and the time to the first token.
use ninfer_studio.Base.{
  ℕ, Text, units, decimal, drop, take, trim, is_blank, starts_with, String, ◌==◌, if◌then◌else◌,
  List, [], ◌∷◌, ◌++◌, Option, none, some,
}
use ninfer_studio.Message.{ToolCall}
use ninfer_studio.Api.Values.{Json, field, optional_field, if_truthy, string_or}

-- The fields of `MessageMeta` that the streams set; a count is as the engine gave it.
pub record MessageMeta : Type 0 where
  pub prompt_tokens : Option Json
  pub cached_tokens : Option Json
  pub completion_tokens : Option Json
  pub reasoning_tokens : Option Json
  pub prompt_tok_per_sec : Option Json
  pub decode_tok_per_sec : Option Json
  pub draft_n : Option Json
  pub draft_n_accepted : Option Json
  pub finish_reason : Option String

abbrev pub no_meta : MessageMeta
no_meta = record {
  prompt_tokens = none;
  cached_tokens = none;
  completion_tokens = none;
  reasoning_tokens = none;
  prompt_tok_per_sec = none;
  decode_tok_per_sec = none;
  draft_n = none;
  draft_n_accepted = none;
  finish_reason = none;
}

-- A call of `ChatStreamCallbacks`.
pub data Callback : Type 0 where
  content_delta reasoning_delta : Text → Callback
  usage : Json → MessageMeta → Callback
  done : MessageMeta → Callback
  failed : Text → Callback
  tool_calls : List ToolCall → Callback

-- What is thrown: the request was aborted by its caller, or an error has a message.
pub data Failure : Type 0 where
  aborted : Failure
  broke : Text → Failure

-- How the reader ends.
pub data Ending : Type 0 where
  end_of_stream : Ending
  interrupted : Failure → Ending

-- What `fetchStream` comes to: it throws, or the status is no success and the body is read as a
-- text, or the body is a stream. The chunks are decoded.
pub data Fetched : Type 0 where
  unreached : Failure → Fetched
  refused : ℕ → Text → Fetched
  opened : List Text → Ending → Fetched

-- `replace(/\r$/, '')`
unfoldable pub strip_cr : Text → Text
strip_cr [] = []
strip_cr (c ∷ []) = if c == 13 then [] else c ∷ []
strip_cr (c ∷ d ∷ s) = c ∷ strip_cr (d ∷ s)

-- The payload of a `data:` line, where it is not empty.
unfoldable pub data_of : Text → Option Text
unfolding starts_with units trim
data_of line =
    let payload = trim (drop 5 line) in
    if starts_with (units "data:") line
    then (if is_blank payload then none else some payload)
    else none

abbrev pub http_status : ℕ → Text
http_status status = units "HTTP " ++ decimal status

-- `s || d`
unfoldable pub text_or : Option String → Text → Text
unfolding units
text_or none d = d
text_or (some s) d = units s

-- What a refused request is reported with.
unfoldable pub detail_of : (Text → Option Json) → ℕ → Text → Text
unfolding units decimal field string_or if_truthy
detail_of parse status text = elim (parse text) [
  | none ↦ if is_blank text then http_status status else take 400 text
  | some j ↦
      let error = field "error" j in
      let message = optional_field "message" error in
      string_or (elim (if_truthy message) [ none ↦ optional_field "code" error | some m ↦ some m ])
        (http_status status)
]

abbrev pub request_failed : Text → Callback
request_failed detail = Callback.failed (units "engine request failed: " ++ detail)

abbrev pub stream_ended : Callback
stream_ended =
    Callback.failed
      (units "The response stream ended before completion — the connection may have dropped.")

-- ===== src/Api/Receipt.antt =====
-- apps/web/src/lib/api/chat.ts: `validateOutputReceipt` and `renderOutputReceipt`, the verified summary of a tool's output. `parse` is `JSON.parse`.
pub mod Verified
use Prim.Native.Nat.{◌≤◌}
use ninfer_studio.Base.{
  ℕ, or_else, Text, units, text_eq, includes, json_string, decimal, String, ◌===◌, ltb, leb, ◌==◌,
  ◌&&◌, ◌||◌, not, is_blank, length, any, if◌then◌else◌, List, [], ◌∷◌, ◌++◌, Option, none, some,
  Bool, true, false, ◌+◌, ◌>>=◌, only_if,
}
use ninfer_studio.Api.Values.{Json, Items, list_of, field, string_of}

pub data Status : Type 0 where
  success failure : Status

-- `OutputReceiptEvidenceKind`
pub data Kind : Type 0 where
  fatal failure warning target summary : Kind

pub record Evidence : Type 0 where
  pub kind : Kind
  pub quote : String

pub record OutputReceipt : Type 0 where
  pub status : Status
  pub uncertain : Bool
  pub evidence : List Evidence

abbrev pub receipt_max_evidence_items : ℕ
receipt_max_evidence_items = 8

abbrev pub receipt_max_quote_chars : ℕ
receipt_max_quote_chars = 400

-- The letters, the digits and `_`, with capitals made small.
unfoldable pub word_char : ℕ → Option ℕ
word_char c =
    if leb b'A' c && leb c b'Z'
    then some (c + 32)
    else if (leb b'a' c && leb c b'z') || (leb b'0' c && leb c b'9') || c == b'_'
    then some c
    else none

abbrev signals : List Text
signals =
    units "error"
    ∷ units "exception"
    ∷ units "fail"
    ∷ units "failed"
    ∷ units "failure"
    ∷ units "traceback"
    ∷ units "panicke"
    ∷ units "panicked"
    ∷ units "fatal"
    ∷ []

is_signal : Text → Bool
unfolding units text_eq
is_signal word = any (text_eq word) signals

-- A test of `FAILURE_SIGNAL_RE`: is one of the text's words a signal? `word` is what has been read
-- of a word.
unfoldable pub signals_failure : Text → Text → Bool
unfolding is_signal word_char
signals_failure word [] = is_signal word
signals_failure word (c ∷ s) =
    let behind_word = is_signal word || signals_failure [] s in
    elim (word_char c) [ none ↦ behind_word | some d ↦ signals_failure (word ++ (d ∷ [])) s ]

unfoldable pub kind_of : Option Json → Option Kind
kind_of (some (Json.string s)) =
    if s === "fatal"
    then some Kind.fatal
    else if s === "failure"
    then some Kind.failure
    else if s === "warning"
    then some Kind.warning
    else if s === "target"
    then some Kind.target
    else if s === "summary"
    then some Kind.summary
    else none
kind_of _ = none

unfoldable pub status_of : Option Json → Option Status
status_of (some (Json.string s)) =
    if s === "success"
    then some Status.success
    else if s === "failure"
    then some Status.failure
    else none
status_of _ = none

-- A quote is neither empty nor long, and stands in the source.
unfoldable pub quote_ok : Text → String → Bool
unfolding units includes
quote_ok source quote =
    let n = length (units quote) in
    not (ltb n 1) && leb n receipt_max_quote_chars && includes (units quote) source

-- The string, where it is a quote of the source.
unfoldable pub quote_of : Text → Option Json → Option String
unfolding quote_ok
quote_of source (some (Json.string s)) = only_if (quote_ok source s) (some s)
quote_of source _ = none

unfoldable pub evidence_item : Text → Json → Option Evidence
unfolding field kind_of quote_of
evidence_item source item = do
  kind ← kind_of (field "kind" item)
  quote ← quote_of source (field "quote" item)
  some (record { kind = kind; quote = quote })

-- All of the items, or none if one is refused.
unfoldable pub evidence_of : Text → List Json → Option (List Evidence)
unfolding evidence_item
evidence_of source [] = some []
evidence_of source (item ∷ items) = do
  e ← evidence_item source item
  rest ← evidence_of source items
  some (e ∷ rest)

abbrev pub is_failure_kind : Evidence → Bool
is_failure_kind e = elim e.kind [ Kind.fatal ↦ true | Kind.failure ↦ true | _ ↦ false ]

abbrev pub boolean_of : Option Json → Option Bool
boolean_of (some (Json.boolean b)) = some b
boolean_of _ = none

abbrev pub items_of : Option Json → Option (List Json)
items_of (some (Json.array items)) = some (list_of items)
items_of _ = none

abbrev pub is_success : Status → Bool
is_success Status.success = true
is_success Status.failure = false

-- Is the tool known to have failed, or does its output read like a failure where nothing is known?
abbrev pub looks_like_failure : Text → Option Bool → Bool
looks_like_failure source (some failed) = failed
looks_like_failure source none = signals_failure [] source

abbrev pub known_failed : Option Bool → Bool
known_failed (some failed) = failed
known_failed none = false

unfoldable pub receipt_of : Text → Option Bool → Json → Option OutputReceipt
unfolding field list_of status_of evidence_of signals_failure
receipt_of source is_error p =
    only_if (or_else (string_of (field "schema" p)) "" === "ninfer_output_receipt_v1") do
      status ← status_of (field "status" p)
      uncertain ← boolean_of (field "uncertain" p)
      items ← items_of (field "evidence" p)
      evidence ← only_if (leb (length items) receipt_max_evidence_items) (evidence_of source items)
      only_if (not (known_failed is_error && is_success status)) (
          only_if (not (looks_like_failure source is_error && not (any is_failure_kind evidence)))
            (some (record { status = status; uncertain = uncertain; evidence = evidence })))

-- `validateOutputReceipt`
unfoldable pub validate_output_receipt :
    (Text → Option Json) → Text → Text → Option Bool → Option OutputReceipt
unfolding receipt_of
validate_output_receipt parse raw source is_error = parse raw >>= receipt_of source is_error

abbrev status_text : Status → Text
status_text Status.success = units "success"
status_text Status.failure = units "failure"

abbrev kind_text : Kind → Text
kind_text Kind.fatal = units "fatal"
kind_text Kind.failure = units "failure"
kind_text Kind.warning = units "warning"
kind_text Kind.target = units "target"
kind_text Kind.summary = units "summary"

-- Each line behind a line feed.
unfoldable pub evidence_lines : List Evidence → Text
unfolding json_string units
evidence_lines [] = []
evidence_lines (e ∷ evidence) =
    units "\n- ["
    ++ kind_text e.kind
    ++ units "] "
    ++ json_string (units e.quote)
    ++ evidence_lines evidence

-- `renderOutputReceipt`
unfoldable pub render_output_receipt : OutputReceipt → Text
unfolding evidence_lines
render_output_receipt r =
    units "status: "
    ++ status_text r.status
    ++ (if r.uncertain then units " (uncertain)" else [])
    ++ (if is_blank r.evidence
        then units "\n- no notable evidence extracted"
        else evidence_lines r.evidence)

-- `formatSummarizedOutput`
unfoldable pub format_summarized_output : ℕ → OutputReceipt → Text → Text
unfolding render_output_receipt decimal
format_summarized_output text_length receipt tail =
    units "[AI-summarized output — "
    ++ decimal text_length
    ++ units
        " chars condensed for brevity; evidence quotes below are verified byte-for-byte against the original]\n"
    ++ render_output_receipt receipt
    ++ units "\n\n--- raw tail (last "
    ++ decimal (length tail)
    ++ units " chars) ---\n"
    ++ tail

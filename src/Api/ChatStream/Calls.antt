-- ===== src/Api/ChatStream/Calls.antt =====
-- api/chat.ts, in `streamChat`: the tool calls that arrive in pieces.
use Prim.Native.String.{◌++◌ as str_append}
use ninfer_studio.Base.{
  ℕ, zero, suc, Text, decimal_name, String, ◌===◌, or_else, length, if◌then◌else◌, List, [], ◌∷◌,
  ◌++◌, Option, none, some,
}
use ninfer_studio.Message.{ToolCall}
use ninfer_studio.Api.Values.{Json, field, optional_field, some_text}
use ninfer_studio.Api.Transport.{text_or}

-- An item of `toolAcc`; a call's type is not read.
pub record Piece : Type 0 where
  pub id : String
  pub name : String
  pub arguments : Text

abbrev pub no_piece : Piece
no_piece = record { id = ""; name = ""; arguments = [] }

-- `toolAcc[i]`, made if it is not there, and changed; an array grows by holes.
unfoldable pub update_at : ℕ → (Piece → Piece) → List (Option Piece) → List (Option Piece)
update_at zero f [] = some (f no_piece) ∷ []
update_at zero f (none ∷ acc) = some (f no_piece) ∷ acc
update_at zero f (some p ∷ acc) = some (f p) ∷ acc
update_at (suc i) f [] = none ∷ update_at i f []
update_at (suc i) f (o ∷ acc) = o ∷ update_at i f acc

-- `filter(Boolean)`
unfoldable pub pieces : List (Option Piece) → List Piece
pieces [] = []
pieces (none ∷ acc) = pieces acc
pieces (some p ∷ acc) = p ∷ pieces acc

-- The calls from the one at `i` on: one without an id is named by its place.
unfoldable pub calls_from : ℕ → List Piece → List ToolCall
unfolding decimal_name
calls_from i [] = []
calls_from i (p ∷ ps) =
    record {
      id = if p.id === "" then str_append "call_" (decimal_name i) else p.id;
      name = p.name;
      arguments = p.arguments;
    }
    ∷ calls_from (suc i) ps

-- An element of `delta.tool_calls`: an index is a natural number, and what is read is a string.
pub record CallDelta : Type 0 where
  pub index : Option ℕ
  pub id : String
  pub name : String
  pub arguments : Text

abbrev pub natural_of : Option Json → Option ℕ
natural_of (some (Json.integer n)) = some n
natural_of _ = none

unfoldable pub call_delta : Json → CallDelta
unfolding field some_text text_or
call_delta tc =
    let function = field "function" tc in
    record {
      index = natural_of (field "index" tc);
      id = or_else (some_text (field "id" tc)) "";
      name = or_else (some_text (optional_field "name" function)) "";
      arguments = text_or (some_text (optional_field "arguments" function)) [];
    }

-- `if (s) t = s`
abbrev pub replace_by : String → String → String
replace_by old new = if new === "" then old else new

abbrev pub merge_piece : CallDelta → Piece → Piece
merge_piece d p = record {
  id = replace_by p.id d.id;
  name = replace_by p.name d.name;
  arguments = p.arguments ++ d.arguments;
}

abbrev pub index_in : List (Option Piece) → Option ℕ → ℕ
index_in acc none = length acc
index_in acc (some i) = i

unfoldable pub add_deltas : List CallDelta → List (Option Piece) → List (Option Piece)
unfolding update_at
add_deltas [] acc = acc
add_deltas (d ∷ deltas) acc =
    add_deltas deltas (update_at (index_in acc d.index) (merge_piece d) acc)

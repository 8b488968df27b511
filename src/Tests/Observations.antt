-- ===== src/Tests/Observations.antt =====
-- observationPack.ts on concrete texts and histories.
use ninfer_studio.Base.{
  Bool, true, Text, units, starts_with, get, length, suc, replicate, [], ◌∷◌, Option, some, ◌≡◌,
  refl, Dict,
}
use ninfer_studio.Message.{Message, tool, plain}
use ninfer_studio.Observations.Pages.{utf8, decode, is_observation_id, read_pages}
use ninfer_studio.Observations.Pages.Slices.{ReadsAs, read_pages-ReadsAs}
use ninfer_studio.Observations.Pack.{Packable, Memory, sent, pack_for_request}

abbrev two_lines : Text
two_lines = units "one\ntwo\n"

abbrev store : Dict Text
store = ("obs_0123456789abcdef01234567", two_lines) ∷ []

read_pages-ReadsAs_example :
    ReadsAs
      (utf8 two_lines)
      (read_pages (suc (length (utf8 two_lines))) store "obs_0123456789abcdef01234567" 0)
unfolding is_observation_id units starts_with get
read_pages-ReadsAs_example =
    read_pages-ReadsAs store "obs_0123456789abcdef01234567" two_lines refl refl

-- A character that a page edge cuts is replaced on both sides.
decode_run :
    (decode (utf8 (units "aé€😀")) ≡ units "aé€😀")
    × (decode (226 ∷ 130 ∷ []) ≡ 65533 ∷ [])
    × (decode (172 ∷ 97 ∷ []) ≡ 65533 ∷ 97 ∷ [])
unfolding decode utf8 units
decode_run = (refl, refl, refl)

-- Every tool result is a text of its own, and is packed into its placeholder.
abbrev extract : Message → Option Packable
extract m = some (record { text = m.content; rendered = λ s. s })

abbrev hash : Text → Text
hash s = units "0123456789abcdef01234567"

abbrev large : Message
large = record (plain tool (replicate 5000 b'a')) { tool_call_id = some "c1" }

abbrev memory : Memory
memory = record { cache = []; stored = [] }

abbrev stores : Text → Text → Bool
stores id text = true

-- Of eight results six are old enough, which is no batch yet.
few_run :
    pack_for_request extract hash stores memory (replicate 8 large)
    ≡ sent (replicate 8 large) memory
unfolding pack_for_request utf8
few_run = refl

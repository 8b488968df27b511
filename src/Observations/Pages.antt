-- ===== src/Observations/Pages.antt =====
-- observationPack.ts, `readRecallChunk`. The stored observations are a map; an offset is a natural
-- number.
pub mod Slices
use ninfer_studio.Base.{
  ℕ, zero, suc, ◌+◌, ◌-◌, ◌*◌, ◌/◌, ◌%◌, ◌≤◌, ◌<◌, ltb, leb, ◌==◌, Text, units, decimal,
  starts_with, code_units, String, Dict, get, if◌then◌else◌, length, length-take, length-drop, take,
  drop, drop-drop, take-append-drop, all, List, [], ◌∷◌, ◌++◌, append-nil, Option, none, some, Bool,
  true, false, not, ◌&&◌, ◌||◌, ◌≡◌, refl, sym, ap, ◌∙◌, arith, Bool-cases, inl, inr,
}

-- `TextEncoder.encode`; a lone surrogate is encoded as the replacement character.
unfoldable pub utf8 : Text → List ℕ
utf8 [] = []
utf8 (c ∷ []) =
    if ltb c 128
    then c ∷ []
    else if ltb c 2048
    then (192 + c / 64) ∷ (128 + c % 64) ∷ []
    else if leb 55296 c && leb c 57343
    then 239 ∷ 191 ∷ 189 ∷ []
    else (224 + c / 4096) ∷ (128 + c / 64 % 64) ∷ (128 + c % 64) ∷ []
utf8 (c ∷ d ∷ s) =
    let rest = utf8 (d ∷ s) in
    let behind_pair = utf8 s in
    let point = 65536 + (c - 55296) * 1024 + (d - 56320) in
    if ltb c 128
    then c ∷ rest
    else if ltb c 2048
    then (192 + c / 64) ∷ (128 + c % 64) ∷ rest
    else if leb 55296 c && leb c 56319 && leb 56320 d && leb d 57343
    then (240 + point / 262144)
      ∷ (128 + point / 4096 % 64)
      ∷ (128 + point / 64 % 64)
      ∷ (128 + point % 64)
      ∷ behind_pair
    else if leb 55296 c && leb c 57343
    then 239 ∷ 191 ∷ 189 ∷ rest
    else (224 + c / 4096) ∷ (128 + c / 64 % 64) ∷ (128 + c % 64) ∷ rest

abbrev pub recall_max_bytes : ℕ
recall_max_bytes = 4000

abbrev pub recall_max_lines : ℕ
recall_max_lines = 200

abbrev is_hex : ℕ → Bool
is_hex c = (leb b'a' c && leb c b'f') || (leb b'0' c && leb c b'9')

-- `isObservationId`
unfoldable pub is_observation_id : Text → Bool
unfolding starts_with units
is_observation_id id = starts_with (units "obs_") id && length id == 28 && all is_hex (drop 4 id)

-- The loop over the bytes: how many there are up to the given number of newlines, and at most
-- `budget`. `lines` is `RECALL_MAX_LINES - newlineCount`.
unfoldable pub page_size : ℕ → ℕ → List ℕ → ℕ
page_size zero lines bytes = 0
page_size (suc budget) lines [] = 0
page_size (suc budget) lines (b ∷ bytes) =
    let fewer = page_size budget (lines - 1) bytes in
    let same = page_size budget lines bytes in
    if b == 10 then (if lines == 1 then 1 else suc fewer) else suc same

abbrev pub page_of : List ℕ → ℕ → List ℕ
page_of bytes offset =
    take (page_size recall_max_bytes recall_max_lines (drop offset bytes)) (drop offset bytes)

-- `nextVal`
abbrev pub next_offset : List ℕ → ℕ → Option ℕ
next_offset bytes offset =
    if ltb (offset + length (page_of bytes offset)) (length bytes)
    then some (offset + length (page_of bytes offset))
    else none

-- The decoder of `TextDecoder`: how many bytes of a character are still to come, what it is so far,
-- and the bounds of the next byte.
pub record Decoder : Type 0 where
  pub needed : ℕ
  pub point : ℕ
  pub lower : ℕ
  pub upper : ℕ

abbrev pub idle : Decoder
idle = record { needed = 0; point = 0; lower = 128; upper = 191 }

abbrev pub replacement : ℕ
replacement = 65533

-- A byte that starts a character.
unfoldable pub start_byte : ℕ → Text × Decoder
start_byte b =
    if ltb b 128
    then (b ∷ [], idle)
    else if leb 194 b && leb b 223
    then ([], record { needed = 1; point = b - 192; lower = 128; upper = 191 })
    else if leb 224 b && leb b 239
    then (
      [],
      record {
        needed = 2;
        point = b - 224;
        lower = if b == 224 then 160 else 128;
        upper = if b == 237 then 159 else 191;
      },
    )
    else if leb 240 b && leb b 244
    then (
      [],
      record {
        needed = 3;
        point = b - 240;
        lower = if b == 240 then 144 else 128;
        upper = if b == 244 then 143 else 191;
      },
    )
    else (replacement ∷ [], idle)

-- A byte that cannot follow ends the character, and is looked at again.
unfoldable pub decode_byte : Decoder → ℕ → Text × Decoder
unfolding start_byte code_units
decode_byte d b =
    let point = d.point * 64 + (b - 128) in
    let again = start_byte b in
    if d.needed == 0
    then again
    else if leb d.lower b && leb b d.upper
    then (if d.needed == 1
        then (code_units point, idle)
        else ([], record { needed = d.needed - 1; point = point; lower = 128; upper = 191 }))
    else (replacement ∷ again.0, again.1)

unfoldable pub decode_from : Decoder → List ℕ → Text
unfolding decode_byte
decode_from d [] = if d.needed == 0 then [] else replacement ∷ []
decode_from d (b ∷ bytes) = let r = decode_byte d b in r.0 ++ decode_from r.1 bytes

-- `new TextDecoder('utf-8', { fatal: false }).decode(bytes)`, which leaves out a byte order mark.
unfoldable pub decode : List ℕ → Text
unfolding decode_from starts_with
decode bytes =
    decode_from idle (if starts_with (239 ∷ 187 ∷ 191 ∷ []) bytes then drop 3 bytes else bytes)

-- `RecallResult`: `eof` is the lack of a next offset.
pub data Recall : Type 0 where
  failed : Text → Recall
  page : Text → Option ℕ → Recall

-- `readRecallChunk`
unfoldable pub read_recall_chunk : Dict Text → String → ℕ → Recall
unfolding is_observation_id units utf8 decode
read_recall_chunk store id offset =
    if not (is_observation_id (units id))
    then failed (units "invalid observation id: " ++ units id)
    else elim (get id store) [
      | none ↦ failed (
          units "no stored observation for id "
          ++ units id
          ++ units " (it may have been from a previous session)")
      | some text ↦
          let bytes = utf8 text in
          if ltb (length bytes) offset
          then failed (
              units "offset "
              ++ decimal offset
              ++ units " out of range (0-"
              ++ decimal (length bytes)
              ++ units ")")
          else page (decode (page_of bytes offset)) (next_offset bytes offset)
    ]

-- The text of a page, and what is read from the next offset on.
abbrev pub follow : (ℕ → List Text) → Recall → List Text
follow read (failed m) = []
follow read (page text none) = text ∷ []
follow read (page text (some offset)) = text ∷ read offset

-- A reader that starts at `offset` and goes on with the next offset until there is none.
unfoldable pub read_pages : ℕ → Dict Text → String → ℕ → List Text
read_pages zero store id offset = []
read_pages (suc fuel) store id offset =
    follow (read_pages fuel store id) (read_recall_chunk store id offset)

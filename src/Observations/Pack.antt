-- ===== src/Observations/Pack.antt =====
-- observationPack.ts, `packForRequest`. `extractPackable`, which parses JSON, the hash and whether the
-- database takes a text are parameters. The cache and what is stored are lists, the newest entry first.
pub mod Places
pub mod Packs
use ninfer_studio.Base.{
  ℕ, suc, ltb, leb, Text, units, text_eq, if◌then◌else◌, length, take, set, get_elem?, List, [],
  ◌∷◌, ◌++◌, Option, none, some, Bool, true, false,
}
use ninfer_studio.Message.{Message, is_tool}
use ninfer_studio.Chat.Sanitize.{or_string}
use ninfer_studio.Observations.Excerpt.{byte_length, placeholder_for}

abbrev pub pack_threshold_bytes : ℕ
pack_threshold_bytes = 4096

abbrev pub pack_full_sends : ℕ
pack_full_sends = 2

abbrev pub pack_batch_size : ℕ
pack_batch_size = 8

-- A large text, and the result with a placeholder in its stead (`applyResultPlaceholder`, as JSON).
pub record Packable : Type 0 where
  pub text : Text
  pub rendered : Text → Text

-- `packedCache.get`
unfoldable pub cached : Text → List (Text × Text) → Option Text
cached key [] = none
cached key ((k, v) ∷ cache) = if text_eq k key then some v else cached key cache

-- The cache, and what was stored.
pub record Memory : Type 0 where
  pub cache : List (Text × Text)
  pub stored : List (Text × Text)

-- The places of the tool messages, from place `i` on.
unfoldable pub tool_indices : ℕ → List Message → List ℕ
tool_indices i [] = []
tool_indices i (m ∷ ms) =
    let rest = tool_indices (suc i) ms in if is_tool m.role then i ∷ rest else rest

-- What `packForRequest` comes to: the messages that it returns, or the write to the database failed.
-- What was packed before is remembered in both cases.
pub data Outcome : Type 0 where
  sent : List Message → Memory → Outcome
  rejected : Memory → Outcome

-- `out`, and `newlyEligible`, behind the first pass; `changed` is whether `out` is returned.
pub record Passed : Type 0 where
  pub out : List Message
  pub changed : Bool
  pub eligible : List (ℕ × Packable)

-- What the first pass makes of a tool message.
pub data Decision : Type 0 where
  untouched : Decision
  reuse : Text → Decision
  candidate : Packable → Decision

abbrev pub with_content : Text → Message → Message
with_content c m = record m { content = c }

abbrev pub add_eligible : ℕ → Packable → Passed → Passed
add_eligible i p r = record r { eligible = (i, p) ∷ r.eligible }

abbrev pub note_change : Passed → Passed
note_change r = record r { changed = true }

-- What a decision does to the rest of the first pass.
abbrev pub after_decision : ℕ → Passed → (Text → Passed) → Decision → Passed
after_decision i same rewritten untouched = same
after_decision i same rewritten (reuse content) = note_change (rewritten content)
after_decision i same rewritten (candidate p) = add_eligible i p same

-- The message at a place, where there is one.
abbrev pub at_message : Outcome → (Message → Outcome) → Option Message → Outcome
at_message otherwise f none = otherwise
at_message otherwise f (some m) = f m

module _ (extract : Message → Option Packable) (hash : Text → Text)
    (stores : Text → Text → Bool) where
  abbrev pub decide_large : Option Packable → Decision
  decide_large none = untouched
  decide_large (some p) =
      if leb (byte_length p.text) pack_threshold_bytes then untouched else candidate p

  abbrev pub decide_cached : Message → Option Text → Decision
  decide_cached m (some content) = reuse content
  decide_cached m none = decide_large (extract m)

  unfoldable pub decide : List (Text × Text) → Message → Decision
  unfolding cached
  decide cache m = decide_cached m (cached m.content cache)

  abbrev pub decide_at : List (Text × Text) → Option Message → Decision
  decide_at cache none = untouched
  decide_at cache (some m) = decide cache m

  -- `out[i] = { ...m, content }`, where `m` is `out[i]`.
  abbrev pub write_at : ℕ → Text → List Message → Option Message → List Message
  write_at i content out none = out
  write_at i content out (some m) = set out i (with_content content m)

  -- The first pass over the places that are left.
  unfoldable pub pass_one : List (Text × Text) → List ℕ → List Message → Passed
  unfolding decide
  pass_one cache [] out = record { out = out; changed = false; eligible = [] }
  pass_one cache (i ∷ places) out =
      let as_it_is = pass_one cache places out in
      if ltb (length places) pack_full_sends
      then as_it_is
      else (after_decision i as_it_is
          (λ content. pass_one cache places (write_at i content out (get_elem? out i)))
          (decide_at cache (get_elem? out i)))

  abbrev pub id_of : Packable → Text
  id_of p = units "obs_" ++ take 24 (hash p.text)

  abbrev pub packed_content : Message → Packable → Text
  packed_content m p =
      p.rendered (placeholder_for (id_of p) (units (or_string m.name "tool")) p.text)

  abbrev pub with_packed : Message → Packable → Memory → Memory
  with_packed m p mem = record {
    cache = (m.content, packed_content m p) ∷ mem.cache;
    stored = (id_of p, p.text) ∷ mem.stored;
  }

  -- The second pass; `stores` is whether the database takes a text.
  unfoldable pub pass_two : List (ℕ × Packable) → List Message → Memory → Outcome
  pass_two [] out mem = sent out mem
  pass_two ((i, p) ∷ eligible) out mem =
      at_message (pass_two eligible out mem)
        (λ m.
          let next =
            pass_two eligible (set out i (with_content (packed_content m p) m))
              (with_packed m p mem) in
          if stores (id_of p) p.text then next else rejected mem)
        (get_elem? out i)

  abbrev pub after_pass_one : List Message → Memory → Passed → Outcome
  after_pass_one ms mem one =
      if ltb (length one.eligible) pack_batch_size
      then sent (if one.changed then one.out else ms) mem
      else pass_two one.eligible one.out mem

  -- `packForRequest`
  unfoldable pub pack_for_request : Memory → List Message → Outcome
  unfolding tool_indices pass_one pass_two
  pack_for_request mem ms =
      let places = tool_indices 0 ms in
      if leb (length places) pack_full_sends
      then sent ms mem
      else after_pass_one ms mem (pass_one mem.cache places ms)

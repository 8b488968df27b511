-- ===== src/Api/Values.antt =====
-- What `JSON.parse` returns, and the tests that the transports make on it. `undefined` is `none`.
use ninfer_studio.Base.{
  ℕ, ◌==◌, Text, units, text_eq, String, ◌===◌, not, decimal, ◌++◌, if◌then◌else◌, List, [], ◌∷◌,
  Option, none, some, Bool, true, false,
}

mutual
  -- A number that is not a natural one carries `String(n)`.
  pub data Json : Type 0 where
    null : Json
    boolean : Bool → Json
    integer : ℕ → Json
    number : Text → Json
    string : String → Json
    array : Items → Json
    object : Members → Json

  pub data Items : Type 0 where
    no_items : Items
    item : Json → Items → Items

  pub data Members : Type 0 where
    no_members : Members
    member : String → Json → Members → Members

unfoldable pub list_of : Items → List Json
list_of no_items = []
list_of (Items.item j items) = j ∷ list_of items

unfoldable pub member_of : String → Members → Option Json
member_of key no_members = none
member_of key (Members.member k j rest) = if k === key then some j else member_of key rest

-- `j.key`, where `j` is neither `null` nor `undefined`.
unfoldable pub field : String → Json → Option Json
unfolding member_of
field key (Json.object members) = member_of key members
field key _ = none

-- `j?.key`
abbrev pub optional_field : String → Option Json → Option Json
optional_field key none = none
optional_field key (some j) = field key j

-- `j.key` fails on `null`.
abbrev pub is_null : Json → Bool
is_null Json.null = true
is_null _ = false

unfoldable pub truthy : Json → Bool
unfolding text_eq units
truthy Json.null = false
truthy (Json.boolean b) = b
truthy (Json.integer n) = not (n == 0)
truthy (Json.number n) = not (text_eq n (units "0"))
truthy (Json.string s) = not (s === "")
truthy _ = true

-- The value, where it is there and truthy.
unfoldable pub if_truthy : Option Json → Option Json
unfolding truthy
if_truthy none = none
if_truthy (some j) = if truthy j then some j else none

-- `String(j)`; an array is joined by commas, and its `null`s are empty.
unfoldable mutual
  unfolding units decimal

  pub string_value : Json → Text
  string_value Json.null = units "null"
  string_value (Json.boolean b) = if b then units "true" else units "false"
  string_value (Json.integer n) = decimal n
  string_value (Json.number n) = n
  string_value (Json.string s) = units s
  string_value (Json.array items) = joined_values false items
  string_value (Json.object _) = units "[object Object]"

  -- With a comma in front, behind an item.
  pub joined_values : Bool → Items → Text
  joined_values behind no_items = []
  joined_values behind (Items.item j items) =
      let value = string_value j in
      let comma = if behind then 44 ∷ [] else [] in
      comma ++ ((if is_null j then [] else value) ++ joined_values true items)

-- `String(j || d)`
unfoldable pub string_or : Option Json → Text → Text
unfolding string_value if_truthy
string_or o d = elim (if_truthy o) [ none ↦ d | some j ↦ string_value j ]

-- `typeof j === 'string' ? j : undefined`
abbrev pub string_of : Option Json → Option String
string_of (some (Json.string s)) = some s
string_of _ = none

-- `j ?? d`
abbrev pub or_default : Option Json → Option Json → Option Json
or_default none d = d
or_default (some Json.null) d = d
or_default (some j) d = some j

-- The string, where it is one that is not empty.
unfoldable pub some_text : Option Json → Option String
some_text (some (Json.string s)) = if s === "" then none else some s
some_text _ = none

-- `Array.isArray(j) ? j : []`
abbrev pub array_of : Option Json → List Json
array_of (some (Json.array items)) = list_of items
array_of _ = []

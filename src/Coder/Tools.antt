-- ===== src/Coder/Tools.antt =====
-- coderTools.ts, the names of MCP tools and the permission tiers, and chatHelpers.ts,
-- `checkComputerUsePerm`. Tool names and paths are texts here.
pub mod Denied
use mathlib.Core.List.{reverse}
use ninfer_studio.Base.{
  ℕ, Text, units, text_eq, trim, is_blank, starts_with, ◌==◌, if◌then◌else◌, drop, List, [], ◌∷◌,
  ◌++◌, any, all, find, Option, none, some, or_else, Bool, true, false, not, ◌&&◌, ◌||◌, ◌≡◌, refl,
  ap, ◌∙◌, arith, Bool-cases, Option-cases, inl, inr,
}

pub data Tier : Type 0 where
  allow ask deny : Tier

-- `PermConfig`. A row may hold any text; one that is no tier is `none` here.
pub record Perms : Type 0 where
  pub tools : List (Text × Option Tier)
  pub deny_paths : List Text

-- `perms.tools[name]`, where it is a tier
unfoldable pub row : Text → List (Text × Option Tier) → Option Tier
row name [] = none
row name ((key, tier) ∷ rows) = if text_eq key name then tier else row name rows

-- `MCP_NAME_PREFIX`
abbrev pub mcp_prefix : Text
mcp_prefix = units "mcp__"

abbrev underscore : ℕ
underscore = 95

-- `rest.indexOf('__')`, as what stands before it and behind it.
unfoldable pub split_at_separator : Text → Option (Text × Text)
split_at_separator [] = none
split_at_separator (c ∷ []) = none
split_at_separator (c ∷ d ∷ s) =
    let later = split_at_separator (d ∷ s) in
    if c == underscore && d == underscore
    then some ([], s)
    else elim later [ none ↦ none | some (server, tool) ↦ some (c ∷ server, tool) ]

abbrev pub both_named : Text × Text → Option (Text × Text)
both_named (server, tool) = if is_blank server || is_blank tool then none else some (server, tool)

-- `splitMcpName`
unfoldable pub split_mcp_name : Text → Option (Text × Text)
unfolding split_at_separator units
split_mcp_name name =
    if starts_with mcp_prefix name
    then elim (split_at_separator (drop 5 name)) [ none ↦ none | some parts ↦ both_named parts ]
    else none

abbrev pub key_of : Option (Text × Text) → Option Text
key_of none = none
key_of (some (server, tool)) = some (mcp_prefix ++ server)

-- `mcpServerKey`
unfoldable pub mcp_server_key : Text → Option Text
mcp_server_key name = key_of (split_mcp_name name)

-- The row of the server, or `allow`.
abbrev pub server_tier : Perms → Option Text → Tier
server_tier perms none = allow
server_tier perms (some key) = or_else (row key perms.tools) allow

-- The row of the tool, or else that of the server.
abbrev pub own_tier : Perms → Option Text → Option Tier → Tier
own_tier perms key none = server_tier perms key
own_tier perms key (some tier) = tier

-- `mcpToolTier`
unfoldable pub mcp_tool_tier : Perms → Text → Tier
mcp_tool_tier perms name = own_tier perms (mcp_server_key name) (row name perms.tools)

unfoldable pub drop_slashes : Text → Text
drop_slashes [] = []
drop_slashes (c ∷ s) = if c == b'/' then drop_slashes s else c ∷ s

-- `d.trim().replace(/\/+$/, '')`
unfoldable pub clean_path : Text → Text
unfolding trim drop_slashes
clean_path d = reverse (drop_slashes (reverse (trim d)))

-- Is `target` the path `clean`, or below it?
abbrev pub is_under : Text → Text → Bool
is_under target clean = text_eq target clean || starts_with (clean ++ (b'/' ∷ [])) target

abbrev pub denies : Text → Text → Bool
denies target d = not (is_blank (clean_path d)) && is_under target (clean_path d)

-- What `checkComputerUsePerm` returns: a reason, `'ask'` or `null`.
pub data Verdict : Type 0 where
  denied : Text → Verdict
  asks proceeds : Verdict

unfoldable pub tier_reason : Text → Text
unfolding units
tier_reason name = units "Denied by Computer Use permissions (" ++ name ++ units " is set to deny)."

unfoldable pub path_reason : Text → Text
unfolding units trim
path_reason hit =
    units "Denied by Computer Use permissions (path is under denied prefix \""
    ++ trim hit
    ++ units "\")."

abbrev pub of_tier : Tier → Verdict
of_tier ask = asks
of_tier _ = proceeds

abbrev pub is_deny : Tier → Bool
is_deny deny = true
is_deny _ = false

-- `target` is `args.path`, or empty where that is no text.
unfoldable pub check_computer_use_perm : Perms → Text → Text → Verdict
unfolding tier_reason path_reason
check_computer_use_perm perms name target =
    if is_deny (mcp_tool_tier perms name)
    then denied (tier_reason name)
    else if is_blank target
    then of_tier (mcp_tool_tier perms name)
    else elim (find (denies target) perms.deny_paths) [
      | some hit ↦ denied (path_reason hit)
      | none ↦ of_tier (mcp_tool_tier perms name)
    ]

-- A server's name has no underscore.
abbrev pub has_no_underscore : Text → Bool
has_no_underscore s = all (λ c. not (c == underscore)) s

split_at_separator-append :
    (server tool : Text)
    → has_no_underscore server ≡ true
    → split_at_separator (server ++ (underscore ∷ underscore ∷ tool)) ≡ some (server, tool)
unfolding split_at_separator
split_at_separator-append [] tool h = refl
split_at_separator-append (c ∷ []) tool h =
    let other : (c == underscore) ≡ false = ground arith in rw other refl
split_at_separator-append (c ∷ d ∷ server) tool h =
    let other : (c == underscore) ≡ false = ground arith in
    let later : split_at_separator (d ∷ (server ++ (underscore ∷ underscore ∷ tool)))
        ≡ some (d ∷ server, tool) =
      split_at_separator-append (d ∷ server) tool (ground arith) in
    rw (other, later) refl

-- The name of a tool, as the control plane makes it, is split into the server and the tool.
split_mcp_name-append :
    (server tool : Text)
    → has_no_underscore server ≡ true
    → is_blank server ≡ false
    → is_blank tool ≡ false
    → split_mcp_name (mcp_prefix ++ (server ++ (underscore ∷ underscore ∷ tool)))
      ≡ some (server, tool)
unfolding split_mcp_name units starts_with
split_mcp_name-append server tool h s t = rw (split_at_separator-append server tool h, s, t) refl

mcp_tool_tier-server :
    (perms : Perms) (name key : Text) (tier : Tier)
    → row name perms.tools ≡ none
    → mcp_server_key name ≡ some key
    → row key perms.tools ≡ some tier
    → mcp_tool_tier perms name ≡ tier
unfolding mcp_tool_tier
mcp_tool_tier-server perms name key tier own e r =
    ap (own_tier perms (mcp_server_key name)) own
    ∙ ap (server_tier perms) e
    ∙ ap (λ (o : Option Tier). or_else o allow) r

mcp_server_key-split :
    (name server tool : Text)
    → split_mcp_name name ≡ some (server, tool)
    → mcp_server_key name ≡ some (mcp_prefix ++ server)
unfolding mcp_server_key
mcp_server_key-split name server tool e = ap key_of e

check_computer_use_perm-deny :
    (perms : Perms) (name target : Text)
    → mcp_tool_tier perms name ≡ deny
    → check_computer_use_perm perms name target ≡ denied (tier_reason name)
unfolding check_computer_use_perm
check_computer_use_perm-deny perms name target e = rw e refl

abbrev pub mcp_name : Text → Text → Text
mcp_name server tool = mcp_prefix ++ (server ++ (underscore ∷ underscore ∷ tool))

-- A server that is denied denies each of its tools that has no row of its own, at any path.
pub check_computer_use_perm-server :
    (perms : Perms) (server tool target : Text)
    → has_no_underscore server ≡ true
    → is_blank server ≡ false
    → is_blank tool ≡ false
    → row (mcp_name server tool) perms.tools ≡ none
    → row (mcp_prefix ++ server) perms.tools ≡ some deny
    → check_computer_use_perm perms (mcp_name server tool) target
      ≡ denied (tier_reason (mcp_name server tool))
check_computer_use_perm-server perms server tool target h s t own denied_row =
    check_computer_use_perm-deny perms (mcp_name server tool) target (
      mcp_tool_tier-server perms (mcp_name server tool) (mcp_prefix ++ server) deny own
        (mcp_server_key-split (mcp_name server tool) server tool
          (split_mcp_name-append server tool h s t))
        denied_row)

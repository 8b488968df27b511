-- ===== src/Tests/GitStatus.antt =====
-- gitStatus.ts on short outputs.
use ninfer_studio.Base.{units, split_lines, [], ◌∷◌, some, false, ◌≡◌, refl}
use ninfer_studio.GitStatus.{finished, modified, renamed, git_status_map, parse_branch_list}
use ninfer_studio.GitStatus.Quote.{shell_quote, sh_word, sh_word-shell_quote}

sh_word-shell_quote_example :
    sh_word false (shell_quote (units "it's; rm")) ≡ some (units "it's; rm")
sh_word-shell_quote_example = sh_word-shell_quote (units "it's; rm")

-- A path outside ASCII keeps the escapes that git wrote.
status_run :
    git_status_map (finished 0 (units " M a.ts\nR  old.ts -> new.ts\n M \"\\303\\251.ts\"\n") [])
    ≡ (units "a.ts", modified) ∷ (units "new.ts", renamed) ∷ (units "\\303\\251.ts", modified) ∷ []
unfolding git_status_map units split_lines
status_run = refl

branch_run :
    parse_branch_list (units "main\ndev\nmain\n") ≡ (units "main", units "dev" ∷ units "main" ∷ [])
unfolding parse_branch_list units split_lines
branch_run = refl

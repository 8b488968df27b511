-- ===== src/FileKind.antt =====
-- apps/web/src/lib/fileKind.ts. Paths are texts here; lower case is that of ASCII, which is where the
-- known extensions lie.
use ninfer_studio.Base.{
  ℕ, ◌+◌, Text, units, text_eq, leb, ◌==◌, ◌&&◌, ◌||◌, if◌then◌else◌, List, [], ◌∷◌, map, any, Bool,
  String, ◌≡◌, refl,
}

pub data FileKind : Type 0 where
  code image binary : FileKind

pub data Lang : Type 0 where
  javascript typescript jsx tsx json python markdown html xml css rust cpp java sql php go yaml :
      Lang
  plain : Lang

pub record Classified : Type 0 where
  pub kind : FileKind
  pub lang : Lang

unfoldable pub to_lower : ℕ → ℕ
to_lower c = if leb 65 c && leb c 90 then c + 32 else c

abbrev is_separator : ℕ → Bool
is_separator c = c == b'/' || c == 92

-- What stands behind the last slash or backslash.
unfoldable pub file_name_from : Text → Text → Text
file_name_from name [] = name
file_name_from name (c ∷ s) = file_name_from (if is_separator c then s else name) s

-- The suffix that starts with the last dot, if there is a dot.
unfoldable pub dot_suffix : Text → Text → Text
dot_suffix found [] = found
dot_suffix found (c ∷ s) = dot_suffix (if c == b'.' then c ∷ s else found) s

-- A dot that stands first is no extension.
unfoldable pub suffix_of_name : Text → Text
unfolding dot_suffix
suffix_of_name [] = []
suffix_of_name (c ∷ s) = dot_suffix [] s

unfoldable pub ext_name : Text → Text
unfolding to_lower file_name_from suffix_of_name
ext_name path = map to_lower (suffix_of_name (file_name_from path path))

abbrev ext_in : List String → Text → Bool
ext_in names ext = any (λ s. text_eq (units s) ext) names

abbrev image_ext : List String
image_ext = ".png" ∷ ".jpg" ∷ ".jpeg" ∷ ".gif" ∷ ".webp" ∷ ".svg" ∷ ".bmp" ∷ ".ico" ∷ []

abbrev binary_ext : List String
binary_ext =
    ".zip" ∷ ".tar" ∷ ".gz" ∷ ".bz2" ∷ ".xz" ∷ ".7z" ∷ ".rar" ∷ ".exe" ∷ ".dll" ∷ ".so" ∷ ".dylib"
    ∷ ".o" ∷ ".a" ∷ ".obj" ∷ ".wasm" ∷ ".class" ∷ ".pyc" ∷ ".pyo" ∷ ".db" ∷ ".sqlite" ∷ ".sqlite3"
    ∷ ".pdf" ∷ ".doc" ∷ ".docx" ∷ ".xls" ∷ ".xlsx" ∷ ".ppt" ∷ ".pptx" ∷ ".bin" ∷ ".dat" ∷ ".iso"
    ∷ ".dmg" ∷ []

unfoldable pub is_image_path : Text → Bool
unfolding ext_name units text_eq
is_image_path p = ext_in image_ext (ext_name p)

unfoldable pub is_binary_path : Text → Bool
unfolding ext_name units text_eq
is_binary_path p = ext_in binary_ext (ext_name p)

-- The `switch`: the first row that lists the extension.
lang_from : List (List String × Lang) → Text → Lang
lang_from [] ext = plain
lang_from ((names, l) ∷ rows) ext = if ext_in names ext then l else lang_from rows ext

unfoldable pub lang_of : Text → Lang
unfolding lang_from units text_eq
lang_of ext =
    lang_from
      ((".ts" ∷ ".mts" ∷ ".cts" ∷ [], typescript)
        ∷ (".tsx" ∷ [], tsx)
        ∷ (".js" ∷ ".mjs" ∷ ".cjs" ∷ [], javascript)
        ∷ (".jsx" ∷ [], jsx)
        ∷ (".json" ∷ ".jsonc" ∷ [], json)
        ∷ (".py" ∷ ".pyi" ∷ [], python)
        ∷ (".md" ∷ ".markdown" ∷ ".mdx" ∷ [], markdown)
        ∷ (".html" ∷ ".htm" ∷ ".vue" ∷ ".svelte" ∷ [], html)
        ∷ (".xml" ∷ ".xsl" ∷ ".xslt" ∷ [], xml)
        ∷ (".css" ∷ ".less" ∷ ".scss" ∷ [], css)
        ∷ (".rs" ∷ [], rust)
        ∷ (".c" ∷ ".cpp" ∷ ".cc" ∷ ".cxx" ∷ ".h" ∷ ".hpp" ∷ [], cpp)
        ∷ (".cs" ∷ [], java)
        ∷ (".java" ∷ ".kt" ∷ ".kts" ∷ [], java)
        ∷ (".sql" ∷ [], sql)
        ∷ (".php" ∷ [], php)
        ∷ (".go" ∷ [], go)
        ∷ (".yml" ∷ ".yaml" ∷ [], yaml)
        ∷ (".toml" ∷ [], yaml)
        ∷ [])
      ext

unfoldable pub file_kind : Text → Classified
unfolding is_image_path is_binary_path lang_of
file_kind path =
    if is_image_path path
    then record { kind = image; lang = plain }
    else if is_binary_path path
    then record { kind = binary; lang = plain }
    else record { kind = code; lang = lang_of (ext_name path) }

file_kind_tests :
    ((file_kind (units "src/a.b/main.TS")).lang ≡ typescript)
    × ((file_kind (units "x/.gitignore")).kind ≡ code)
    × ((file_kind (units "logo.svg")).kind ≡ image)
    × ((file_kind (units "a.tar.gz")).kind ≡ binary)
unfolding file_kind units
file_kind_tests = (refl, refl, refl, refl)

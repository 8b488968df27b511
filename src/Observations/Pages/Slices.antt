-- ===== src/Observations/Pages/Slices.antt =====
-- observationPack.ts: what the pages of a stored observation make up.
use ninfer_studio.Base.{
  ℕ, zero, suc, ◌+◌, ◌-◌, ◌≤◌, ◌<◌, ltb, leb, Text, units, String, Dict, get, length, length-take,
  length-drop, drop, drop-drop, take-append-drop, all, map, List, [], ◌∷◌, ◌++◌, none, some, subst,
  true, false, ◌≡◌, refl, sym, ap, ◌∙◌, arith, Bool-cases, inl, inr,
}
use ninfer_studio.Observations.Pages.{
  utf8, is_observation_id, page_size, recall_max_bytes, recall_max_lines, page_of, next_offset,
  decode, page, read_recall_chunk, follow, read_pages,
}

page_size-length : (bytes : List ℕ) (budget lines : ℕ) → page_size budget lines bytes ≤ length bytes
unfolding page_size
page_size-length [] zero lines = omega arith
page_size-length [] (suc budget) lines = omega arith
page_size-length (b ∷ bytes) zero lines = omega arith
page_size-length (b ∷ bytes) (suc budget) lines =
    ground (arith, page_size-length bytes budget lines, page_size-length bytes budget (lines - 1))

page_size-positive :
    (bytes : List ℕ) (budget lines : ℕ) → 0 < length bytes → 0 < page_size (suc budget) lines bytes
unfolding page_size
page_size-positive [] budget lines h = elim h [ ]
page_size-positive (b ∷ bytes) budget lines h = ground arith

drop-all : (xs : List ℕ) (n : ℕ) → length xs ≤ n → drop n xs ≡ []
drop-all [] zero h = refl
drop-all [] (suc n) h = refl
drop-all (x ∷ xs) zero h = absurd (omega arith)
drop-all (x ∷ xs) (suc n) h = drop-all xs n (omega arith)

length-page_of :
    (bytes : List ℕ) (offset : ℕ)
    → length (page_of bytes offset)
      ≡ page_size recall_max_bytes recall_max_lines (drop offset bytes)
length-page_of bytes offset =
    let rest = drop offset bytes in
    omega (
      arith,
      length-take (page_size recall_max_bytes recall_max_lines rest) rest,
      page_size-length rest recall_max_bytes recall_max_lines,
    )

page_of-drop :
    (bytes : List ℕ) (offset : ℕ)
    → page_of bytes offset ++ drop (offset + length (page_of bytes offset)) bytes
      ≡ drop offset bytes
page_of-drop bytes offset =
    let size = page_size recall_max_bytes recall_max_lines (drop offset bytes) in
    rw (length-page_of bytes offset) (
      ap (page_of bytes offset ++◌) (sym (drop-drop offset size (offset + size) bytes refl))
      ∙ take-append-drop size (drop offset bytes))

page_of-positive :
    (bytes : List ℕ) (offset : ℕ) → offset < length bytes → 0 < length (page_of bytes offset)
page_of-positive bytes offset h = omega (
  arith,
  length-page_of bytes offset,
  page_size-positive (drop offset bytes) 3999 recall_max_lines
      (omega (arith, length-drop offset bytes)),
)

-- The bytes of the pages, one after another.
abbrev pub concatenated : List (List ℕ) → List ℕ
concatenated [] = []
concatenated (s ∷ slices) = s ++ concatenated slices

-- What is read is the texts of slices of at most 4000 bytes, which together are `bytes`.
abbrev pub ReadsAs : List ℕ → List Text → Type 0
ReadsAs bytes texts =
    (slices : List (List ℕ)) × (texts ≡ map decode slices)
    × (concatenated slices ≡ bytes)
    × (all (λ s. leb (length s) recall_max_bytes) slices ≡ true)

page_size-budget : (bytes : List ℕ) (budget lines : ℕ) → page_size budget lines bytes ≤ budget
unfolding page_size
page_size-budget [] zero lines = omega arith
page_size-budget [] (suc budget) lines = omega arith
page_size-budget (b ∷ bytes) zero lines = omega arith
page_size-budget (b ∷ bytes) (suc budget) lines =
    ground (arith, page_size-budget bytes budget lines, page_size-budget bytes budget (lines - 1))

small-page_of : (bytes : List ℕ) (offset : ℕ) → leb (length (page_of bytes offset)) 4000 ≡ true
small-page_of bytes offset =
    let small = page_size-budget (drop offset bytes) recall_max_bytes recall_max_lines in
    let size = length-page_of bytes offset in ground (arith, small, size)

ReadsAs-cons :
    (bytes rest : List ℕ) (offset : ℕ) (texts : List Text)
    → page_of bytes offset ++ rest ≡ drop offset bytes
    → ReadsAs rest texts
    → ReadsAs (drop offset bytes) (decode (page_of bytes offset) ∷ texts)
ReadsAs-cons bytes rest offset texts e (slices, t, c, s) = (
  page_of bytes offset ∷ slices,
  ap (decode (page_of bytes offset) ∷◌) t,
  ap (page_of bytes offset ++◌) c ∙ e,
  rw (small-page_of bytes offset, s) refl,
)

module _ (store : Dict Text) (id : String) (text : Text)
    (named : is_observation_id (units id) ≡ true) (stored : get id store ≡ some text) where
  read_recall_chunk-page :
      (offset : ℕ)
      → offset ≤ length (utf8 text)
      → read_recall_chunk store id offset
        ≡ page (decode (page_of (utf8 text) offset)) (next_offset (utf8 text) offset)
  unfolding read_recall_chunk
  read_recall_chunk-page offset h =
      let inside : ltb (length (utf8 text)) offset ≡ false = ground arith in
      rw (named, stored, inside) refl

  progress :
      (o fuel : ℕ)
      → o < length (utf8 text)
      → length (utf8 text) ≤ o + suc fuel
      → length (utf8 text) ≤ o + length (page_of (utf8 text) o) + fuel
  progress o fuel g j = omega (arith, page_of-positive (utf8 text) o g)

  read_pages-drop :
      (fuel offset : ℕ)
      → offset ≤ length (utf8 text)
      → length (utf8 text) < offset + fuel
      → ReadsAs (drop offset (utf8 text)) (read_pages fuel store id offset)
  unfolding read_pages
  read_pages-drop zero offset h k = absurd (omega arith)
  read_pages-drop (suc fuel) offset h k =
      let bytes = utf8 text in
      let end = offset + length (page_of bytes offset) in
      elim (Bool-cases (ltb end (length bytes))) [
        | inl more ↦
            let some_next : next_offset bytes offset ≡ some end = rw more refl in
            let far : length bytes < end + fuel =
              omega (arith, page_of-positive bytes offset (ground arith), h, k) in
            subst (ReadsAs (drop offset bytes))
              (sym (
                ap (follow (read_pages fuel store id)) (
                  read_recall_chunk-page offset h
                  ∙ ap (page (decode (page_of bytes offset))) some_next)))
              (ReadsAs-cons bytes (drop end bytes) offset _ (page_of-drop bytes offset)
                (read_pages-drop fuel end (ground arith) far))
        | inr last ↦
            let no_next : next_offset bytes offset ≡ none = rw last refl in
            subst (ReadsAs (drop offset bytes))
              (sym (
                ap (follow (read_pages fuel store id)) (
                  read_recall_chunk-page offset h
                  ∙ ap (page (decode (page_of bytes offset))) no_next)))
              (ReadsAs-cons bytes (drop end bytes) offset [] (page_of-drop bytes offset)
                ([], refl, sym (drop-all bytes end (ground arith)), refl))
      ]

-- Whoever reads a stored observation from its start, and goes on with the next offset until there is
-- none, gets the texts of slices of at most 4000 bytes that one after another are all its bytes, each
-- once and in order; one page more than there are bytes is enough.
pub read_pages-ReadsAs :
    (store : Dict Text) (id : String) (text : Text)
    → is_observation_id (units id) ≡ true
    → get id store ≡ some text
    → ReadsAs (utf8 text) (read_pages (suc (length (utf8 text))) store id 0)
read_pages-ReadsAs store id text named stored =
    read_pages-drop store id text named stored (suc (length (utf8 text))) 0 (omega arith)
      (omega arith)

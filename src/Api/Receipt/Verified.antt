-- ===== src/Api/Receipt/Verified.antt =====
-- api/chat.ts: what an accepted receipt is worth.
use Prim.Native.Nat.{◌≤◌}
use ninfer_studio.Base.{
  Text, units, includes, String, ltb, leb, not, ◌&&◌, length, any, All, List, [], ◌∷◌, Option, none,
  some, Bool, true, false, ◌≡◌, refl, ap, sym, subst, arith, leb→le, and_left, and_right, bind-some,
  suc, some-injective, only_if, only_if-some,
}
use ninfer_studio.Api.Values.{Json, field}
use ninfer_studio.Api.Receipt.{
  Evidence, OutputReceipt, receipt_max_evidence_items, receipt_max_quote_chars, kind_of, status_of,
  quote_ok, quote_of, evidence_item, evidence_of, boolean_of, items_of, is_success,
  looks_like_failure, known_failed, is_failure_kind, receipt_of, validate_output_receipt,
}

-- The quote is neither empty nor long, and stands in the source.
unfoldable pub IsQuote : Text → Evidence → Type 0
IsQuote source e =
    (1 ≤ length (units e.quote))
    × (length (units e.quote) ≤ receipt_max_quote_chars)
    × (includes (units e.quote) source ≡ true)

quote_of-IsQuote :
    (source : Text) (o : Option Json) (s : String)
    → quote_of source o ≡ some s
    → quote_ok source s ≡ true
unfolding quote_of
quote_of-IsQuote source none s h = absurd (cc h)
quote_of-IsQuote source (some Json.null) s h = absurd (cc h)
quote_of-IsQuote source (some (Json.boolean _)) s h = absurd (cc h)
quote_of-IsQuote source (some (Json.integer _)) s h = absurd (cc h)
quote_of-IsQuote source (some (Json.number _)) s h = absurd (cc h)
quote_of-IsQuote source (some (Json.array _)) s h = absurd (cc h)
quote_of-IsQuote source (some (Json.object _)) s h = absurd (cc h)
quote_of-IsQuote source (some (Json.string q)) s h =
    let passed = only_if-some (quote_ok source q) (some q) s h in
    subst (λ t. quote_ok source t ≡ true) (some-injective passed.1) passed.0

quote_ok-IsQuote :
    (source : Text) (e : Evidence) → quote_ok source e.quote ≡ true → IsQuote source e
unfolding quote_ok IsQuote
quote_ok-IsQuote source e h =
    let n = length (units e.quote) in
    let bounded = and_left _ _ h in
    (
      ground (arith, and_left (not (ltb n 1)) (leb n receipt_max_quote_chars) bounded),
      leb→le _ _ (and_right (not (ltb n 1)) (leb n receipt_max_quote_chars) bounded),
      and_right _ _ h,
    )

evidence_of-IsQuote :
    (source : Text) (items : List Json) (evidence : List Evidence)
    → evidence_of source items ≡ some evidence
    → (All (IsQuote source) evidence) × (length evidence ≡ length items)
unfolding evidence_of evidence_item
evidence_of-IsQuote source [] evidence h =
    subst (λ es. All (IsQuote source) es × (length es ≡ 0)) (some-injective h) (tt, refl)
evidence_of-IsQuote source (item ∷ items) evidence h =
    let first = bind-some (evidence_item source item) _ evidence h in
    let rest = bind-some (evidence_of source items) _ evidence first.2 in
    let kind = bind-some (kind_of (field "kind" item)) _ first.0 first.1 in
    let quote = bind-some (quote_of source (field "quote" item)) _ first.0 kind.2 in
    let items_ok = evidence_of-IsQuote source items rest.0 rest.1 in
    let made = some-injective quote.2 in
    let here = subst (IsQuote source) made (
      quote_ok-IsQuote source (record { kind = kind.0; quote = quote.0 })
        (quote_of-IsQuote source (field "quote" item) quote.0 quote.1)) in
    subst (λ es. All (IsQuote source) es × (length es ≡ suc (length items))) (some-injective rest.2)
      ((here, items_ok.0), ap suc items_ok.1)

-- What the program relies on when it shows a receipt in place of an output.
unfoldable pub IsVerified : Text → Option Bool → OutputReceipt → Type 0
IsVerified source is_error r =
    (All (IsQuote source) r.evidence)
    × (length r.evidence ≤ receipt_max_evidence_items)
    × (known_failed is_error ≡ true → is_success r.status ≡ false)
    × (looks_like_failure source is_error ≡ true → any is_failure_kind r.evidence ≡ true)

refuted : (a b : Bool) → not (a && b) ≡ true → a ≡ true → b ≡ false
refuted true false h k = refl
refuted true true h k = absurd (cc h)
refuted false b h k = absurd (cc k)

not_false : (a b : Bool) → not (a && not b) ≡ true → a ≡ true → b ≡ true
not_false true true h k = refl
not_false true false h k = absurd (cc h)
not_false false b h k = absurd (cc k)

receipt_of-IsVerified :
    (source : Text) (is_error : Option Bool) (p : Json) (r : OutputReceipt)
    → receipt_of source is_error p ≡ some r
    → IsVerified source is_error r
unfolding receipt_of IsVerified
receipt_of-IsVerified source is_error p r h =
    let schema = only_if-some _ _ r h in
    let status = bind-some (status_of (field "status" p)) _ r schema.1 in
    let uncertain = bind-some (boolean_of (field "uncertain" p)) _ r status.2 in
    let items = bind-some (items_of (field "evidence" p)) _ r uncertain.2 in
    let evidence =
      bind-some
        (only_if (leb (length items.0) receipt_max_evidence_items) (evidence_of source items.0)) _ r
        items.2 in
    let few =
      only_if-some (leb (length items.0) receipt_max_evidence_items) (evidence_of source items.0)
        evidence.0 evidence.1 in
    let quotes = evidence_of-IsQuote source items.0 evidence.0 few.1 in
    let told = only_if-some _ _ r evidence.2 in
    let backed = only_if-some _ _ r told.1 in
    subst (IsVerified source is_error) (some-injective backed.1) (
      quotes.0,
      subst (λ n. n ≤ receipt_max_evidence_items) (sym quotes.1) (leb→le _ _ few.0),
      refuted (known_failed is_error) (is_success status.0) told.0,
      not_false (looks_like_failure source is_error) (any is_failure_kind evidence.0) backed.0,
    )

-- An accepted receipt holds at most eight quotes, each of 1 to 400 characters and found in the
-- source; it does not report success where the tool is known to have failed; and where the tool has
-- failed, or nothing is known and the source has a word that signals failure, it holds a quote of
-- the kind `fatal` or `failure`.
pub validate_output_receipt-IsVerified :
    (parse : Text → Option Json) (raw source : Text) (is_error : Option Bool) (r : OutputReceipt)
    → validate_output_receipt parse raw source is_error ≡ some r
    → IsVerified source is_error r
unfolding validate_output_receipt
validate_output_receipt-IsVerified parse raw source is_error r h =
    let parsed = bind-some (parse raw) (receipt_of source is_error) r h in
    receipt_of-IsVerified source is_error parsed.0 r parsed.2

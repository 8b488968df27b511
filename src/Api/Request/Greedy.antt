-- ===== src/Api/Request/Greedy.antt =====
-- api/chat.ts, `buildChatRequest`: the sampling of a request.
use ninfer_studio.Base.{
  Text, units, trim, All, String, ◌===◌, Dict, get, put, delete, spread, get-put, get-delete,
  is_blank, if◌then◌else◌, if_elim, [], ◌∷◌, Option, none, some, Bool, true, false, Bool-cases, ◌≡◌,
  refl, ap, ◌∙◌, inl, inr,
}
use ninfer_studio.Api.Values.{Json, array_of}
use ninfer_studio.Api.Request.Body.{
  StructuredOutput, ChatParams, json_object, json_schema, grammar, choice, regex, put_some,
  is_object, base_fields, put_sampling, put_parallel, put_if, schema_fields, put_structured,
  put_tool_constraints, structured_output_fields, request_fields,
}

get-put_ne :
    (k j : String) (v : Json) (m : Dict Json) → (k === j) ≡ false → get j (put k v m) ≡ get j m
get-put_ne k j v m e = get-put k j v m ∙ ap (λ b. if b then some v else get j m) e

get-put_some :
    (k j : String) (o : Option Json) (m : Dict Json)
    → (k === j) ≡ false
    → get j (put_some k o m) ≡ get j m
get-put_some k j none m e = refl
get-put_some k j (some v) m e = get-put_ne k j v m e

get-put_if :
    (b : Bool) (k j : String) (v : Json) (m : Dict Json)
    → (k === j) ≡ false
    → get j (put_if b k v m) ≡ get j m
get-put_if true k j v m e = get-put_ne k j v m e
get-put_if false k j v m e = refl

get-put_parallel :
    (o : Option Bool) (j : String) (m : Dict Json)
    → ("parallel_tool_calls" === j) ≡ false
    → get j (put_parallel o m) ≡ get j m
unfolding put_parallel
get-put_parallel none j m e = refl
get-put_parallel (some true) j m e = refl
get-put_parallel (some false) j m e = get-put_ne "parallel_tool_calls" j (Json.boolean false) m e

get-put_tool_constraints :
    (p : ChatParams) (j : String) (m : Dict Json)
    → ("tool_constraints" === j) ≡ false
    → ("parallel_tool_calls" === j) ≡ false
    → get j (put_tool_constraints p m) ≡ get j m
unfolding put_tool_constraints
get-put_tool_constraints p j m e f =
    let auto = put_if p.auto_tool_constraints "tool_constraints" (Json.string "auto") m in
    if_elim (λ x. get j x ≡ get j m) (is_blank (array_of (get "tools" m))) m
      (put_parallel p.parallel_tool_calls auto) refl
      (get-put_parallel p.parallel_tool_calls j auto f
        ∙ get-put_if p.auto_tool_constraints "tool_constraints" j (Json.string "auto") m e)

-- None of the keys is `j`.
Without : String → Dict Json → Type 0
Without j pairs = All (λ kv. (kv.0 === j) ≡ false) pairs

get-spread : (j : String) (m pairs : Dict Json) → Without j pairs → get j (spread m pairs) ≡ get j m
unfolding spread Without
get-spread j m [] h = refl
get-spread j m ((k, v) ∷ pairs) (e, h) = get-spread j (put k v m) pairs h ∙ get-put_ne k j v m e

schema-Without :
    (title : String) (strict : Bool) (o : Option Json) (j : String)
    → ("response_format" === j) ≡ false
    → Without j (schema_fields title strict o)
unfolding schema_fields Without
schema-Without title strict none j e = tt
schema-Without title strict (some s) j e = elim (Bool-cases (is_object s)) [
  | inl b ↦ rw b (e, tt)
  | inr b ↦ rw b tt
]

-- The keys that are set behind the sampling.
abbrev later_keys : Dict Json
later_keys =
    ("tool_constraints", Json.null)
    ∷ ("parallel_tool_calls", Json.null)
    ∷ ("response_format", Json.null)
    ∷ ("structured_outputs", Json.null)
    ∷ ("seed", Json.null)
    ∷ ("frequency_penalty", Json.null)
    ∷ ("presence_penalty", Json.null)
    ∷ []

module _ (parse : Text → Option Json) (trim_name : String → String) where
  structured-Without :
      (so : StructuredOutput) (j : String)
      → ("response_format" === j) ≡ false
      → ("structured_outputs" === j) ≡ false
      → Without j (structured_output_fields parse trim_name so)
  unfolding structured_output_fields Without
  structured-Without json_object j e f = (e, tt)
  structured-Without (json_schema n s strict) j e f = schema-Without _ strict (parse s) j e
  structured-Without (grammar g) j e f = elim (Bool-cases (is_blank (trim (units g)))) [
    | inl b ↦ rw b tt
    | inr b ↦ rw b (f, tt)
  ]
  structured-Without (choice choices) j e f = elim (Bool-cases (is_blank choices)) [
    | inl b ↦ rw b tt
    | inr b ↦ rw b (f, tt)
  ]
  structured-Without (regex r) j e f = (f, tt)

  get-put_structured :
      (o : Option StructuredOutput) (j : String) (m : Dict Json)
      → ("response_format" === j) ≡ false
      → ("structured_outputs" === j) ≡ false
      → get j (put_structured parse trim_name o m) ≡ get j m
  unfolding put_structured
  get-put_structured none j m e f = refl
  get-put_structured (some so) j m e f =
      get-spread j m (structured_output_fields parse trim_name so) (structured-Without so j e f)

  -- What the sampling sets is what is sent, for a key that no later line sets.
  get-request_fields :
      (model : String) (p : ChatParams) (extra : Dict Json) (j : String)
      → Without j later_keys
      → get j (request_fields parse trim_name model p extra)
        ≡ get j (put_sampling p (put_some "temperature" p.temperature (base_fields model p extra)))
  unfolding request_fields Without
  get-request_fields model p extra j (a, (b, (c, (d, (e, (f, (g, h))))))) =
      get-put_tool_constraints p j _ a b
      ∙ get-put_structured p.structured_output j _ c d
      ∙ get-put_some "seed" j p.seed _ e
      ∙ get-put_some "frequency_penalty" j p.frequency_penalty _ f
      ∙ get-put_some "presence_penalty" j p.presence_penalty _ g

  greedy_get :
      (model : String) (p : ChatParams) (extra : Dict Json) (j : String)
      → p.greedy ≡ true
      → Without j later_keys
      → get j (request_fields parse trim_name model p extra)
        ≡ get j (
            delete "min_p" (
              delete "top_k" (
                put "top_p" (Json.integer 1) (
                  put "temperature"
                    (Json.integer 0)
                    (put_some "temperature" p.temperature (base_fields model p extra))))))
  unfolding put_sampling
  greedy_get model p extra j greedy other =
      get-request_fields model p extra j other ∙ rw greedy refl

  -- A greedy request is sent with temperature 0 and top_p 1, and without top_k and min_p, whatever
  -- else the parameters and the caller's own fields say.
  pub request_fields-greedy :
      (model : String) (p : ChatParams) (extra : Dict Json)
      → p.greedy ≡ true
      → (get "temperature" (request_fields parse trim_name model p extra) ≡ some (Json.integer 0))
        × (get "top_p" (request_fields parse trim_name model p extra) ≡ some (Json.integer 1))
        × (get "top_k" (request_fields parse trim_name model p extra) ≡ none)
        × (get "min_p" (request_fields parse trim_name model p extra) ≡ none)
  unfolding Without
  request_fields-greedy model p extra greedy =
      let at = λ (j : String). greedy_get model p extra j greedy in
      (
        at "temperature" (refl, (refl, (refl, (refl, (refl, (refl, (refl, tt)))))))
            ∙ get-delete "min_p" "temperature" _
            ∙ get-delete "top_k" "temperature" _
            ∙ get-put "top_p" "temperature" _ _
            ∙ get-put "temperature" "temperature" _ _,
        at "top_p" (refl, (refl, (refl, (refl, (refl, (refl, (refl, tt)))))))
            ∙ get-delete "min_p" "top_p" _
            ∙ get-delete "top_k" "top_p" _
            ∙ get-put "top_p" "top_p" _ _,
        at "top_k" (refl, (refl, (refl, (refl, (refl, (refl, (refl, tt)))))))
            ∙ get-delete "min_p" "top_k" _
            ∙ get-delete "top_k" "top_k" _,
        at "min_p" (refl, (refl, (refl, (refl, (refl, (refl, (refl, tt)))))))
            ∙ get-delete "min_p" "min_p" _,
      )

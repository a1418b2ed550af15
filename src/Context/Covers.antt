-- ===== src/Context/Covers.antt =====
-- The window that is sent and the estimate of the task (packages/rust-core/src/platform/context.rs).
use free_llama.Base.{
  ℕ, ◌+◌, ◌≤◌, ◌<◌, ◌≡◌, ◌^◌, ◌-◌, refl, inl, inr, Bool, true, false, not, ◌&&◌, List, Option, none,
  some, ltb, ◌==◌, is_some, is_none_or, arith, Bool-cases, ok, err, All, All-imp, ◌⊎◌, ltb→lt,
}
use free_llama.Routing.{CatalogModel, RouteDecision}
use free_llama.Context.{
  ContextInput, ContextMessage, ContextReceipt, Sizing, auto_context_limit, template_margin,
  buckets, required_tokens, select_bucket, automatic_cap, with_schemas, payload_bytes, scoped_bytes,
  size_automatic, check_scoped, size_scoped_explicit_context, size_bounded, size_checked,
  size_context, has_unestimated_modality,
}

select_bucket_lem :
    (required cap : ℕ)
    → required ≤ cap
    → cap ≤ auto_context_limit
    → (required ≤ select_bucket required cap)
      × (select_bucket required cap ≤ cap)
      × All (λ b. required ≤ b → select_bucket required cap ≤ b) buckets
unfolding select_bucket
select_bucket_lem required cap h k = ground arith

automatic_cap-limit : (model : CatalogModel) (n : ℕ) → automatic_cap model n ≤ auto_context_limit
unfolding automatic_cap
automatic_cap-limit model n = omega arith

required_tokens-sum :
    (estimated output cap : ℕ)
    → required_tokens estimated output ≤ cap
    → cap < 2 ^ 64 - 1
    → estimated + output + template_margin ≤ cap
unfolding required_tokens
required_tokens-sum estimated output cap h k = omega arith

module _ (json_bytes : List ContextMessage → ℕ) (input : ContextInput) (budget : Option ℕ) where
  -- What a receipt says of the window `n` that is sent: an estimate is that of the task, with the
  -- output budget and the margin it fits the window, and an automatic size is the least bucket
  -- that it fits, within a cap.
  abbrev pub Covers : ContextReceipt → ℕ → Type 0
  Covers (ContextReceipt.warm_profile tokens) n = (input.warms ≡ true) × (tokens ≡ n)
  Covers (ContextReceipt.explicit tokens) n = (is_some input.scope_id ≡ false) × (tokens ≡ n)
  Covers (ContextReceipt.profile reason) n = is_some input.scope_id ≡ false
  Covers (ContextReceipt.scope_explicit_multimodal tokens estimated output) n =
      (tokens ≡ n)
      × (estimated ≡ with_schemas input (scoped_bytes json_bytes true input))
      × (budget ≡ some output)
      × (estimated + output + template_margin ≤ n)
  Covers (ContextReceipt.scope_explicit_estimate tokens estimated output) n =
      (tokens ≡ n)
      × (estimated ≡ with_schemas input (scoped_bytes json_bytes false input))
      × (budget ≡ some output)
      × (estimated + output + template_margin ≤ n)
  Covers (ContextReceipt.prompt_estimate tokens estimated output cap) n =
      (estimated ≡ with_schemas input (payload_bytes json_bytes input input.messages))
      × (budget ≡ some output)
      × (estimated + output + template_margin ≤ tokens)
      × (tokens ≤ cap)
      × (cap ≤ auto_context_limit)
      × All (λ b. (b < estimated + output + template_margin) ⊎ (tokens ≤ b)) buckets
      × (tokens ≤ n)

  -- What an answer of the sizing promises.
  abbrev pub Sound : Sizing → Type 0
  Sound (err e) = Unit
  Sound (ok (receipt, d)) = Covers receipt d.options.num_ctx × (d.options.num_predict ≡ budget)

module _ (json_bytes : List ContextMessage → ℕ) (input : ContextInput) (d : RouteDecision)
    (word : d.options.num_ctx < 2 ^ 32) where
  abbrev SoundHere : Sizing → Type 0
  SoundHere = Sound json_bytes input d.options.num_predict

  least_bucket :
      (estimated output selected : ℕ)
      → All (λ b. required_tokens estimated output ≤ b → selected ≤ b) buckets
      → All (λ b. (b < estimated + output + template_margin) ⊎ (selected ≤ b)) buckets
  unfolding required_tokens
  least_bucket estimated output selected least =
      All-imp (λ b. required_tokens estimated output ≤ b → selected ≤ b)
        (λ b. (b < estimated + output + template_margin) ⊎ (selected ≤ b))
        (λ b h. elim (Bool-cases (ltb b (estimated + output + template_margin))) [
          | inl t ↦ inl (ltb→lt b _ t)
          | inr t ↦
              let le : estimated + output + template_margin ≤ b = ground (arith, t) in
              inr (h (omega (arith, le)))
        ])
        buckets least

  size_automatic-Sound :
      (model : CatalogModel) (output : ℕ)
      → d.options.num_predict ≡ some output
      → SoundHere (
          size_automatic d model
            (with_schemas input (payload_bytes json_bytes input input.messages))
            output)
  unfolding size_automatic
  size_automatic-Sound model output e =
      let estimated = with_schemas input (payload_bytes json_bytes input input.messages) in
      let required = required_tokens estimated output in
      let cap = automatic_cap model d.options.num_ctx in
      let limit = automatic_cap-limit model d.options.num_ctx in
      elim (Bool-cases (ltb cap required)) [
        | inl t ↦ rw t tt
        | inr t ↦
            let le : required ≤ cap = ground (arith, t) in
            let (covers, within, least) = select_bucket_lem required cap le limit in
            rw t (
              (
                refl,
                e,
                required_tokens-sum estimated output (select_bucket required cap) covers
                    (omega (arith, within, limit)),
                within,
                limit,
                least_bucket estimated output (select_bucket required cap) least,
                omega arith,
              ),
              refl,
            )
      ]

  check_scoped-Sound :
      (modality : Bool) (output : ℕ)
      → d.options.num_predict ≡ some output
      → SoundHere (check_scoped json_bytes input d modality output)
  check_scoped-Sound true output e =
      let estimated = with_schemas input (scoped_bytes json_bytes true input) in
      elim (Bool-cases (ltb d.options.num_ctx (required_tokens estimated output))) [
        | inl t ↦ rw t tt
        | inr t ↦
            let le : required_tokens estimated output ≤ d.options.num_ctx = ground (arith, t) in
            rw t (
              (refl, refl, e, required_tokens-sum estimated output _ le (omega (arith, word))),
              refl,
            )
      ]
  check_scoped-Sound false output e =
      let estimated = with_schemas input (scoped_bytes json_bytes false input) in
      elim (Bool-cases (ltb d.options.num_ctx (required_tokens estimated output))) [
        | inl t ↦ rw t tt
        | inr t ↦
            let le : required_tokens estimated output ≤ d.options.num_ctx = ground (arith, t) in
            rw t (
              (refl, refl, e, required_tokens-sum estimated output _ le (omega (arith, word))),
              refl,
            )
      ]

  size_scoped-Sound :
      (modality : Bool) (budget : Option ℕ)
      → d.options.num_predict ≡ budget
      → SoundHere (size_scoped_explicit_context json_bytes input d modality budget)
  unfolding size_scoped_explicit_context
  size_scoped-Sound modality none e = tt
  size_scoped-Sound modality (some output) e = check_scoped-Sound modality output e

  size_bounded-Sound :
      (model : CatalogModel) (budget : Option ℕ)
      → d.options.num_predict ≡ budget
      → SoundHere (size_bounded json_bytes input d model budget)
  size_bounded-Sound model (some output) e = size_automatic-Sound model output e
  size_bounded-Sound model none e = elim (Bool-cases (is_some input.scope_id)) [
    | inl s ↦ rw s tt
    | inr s ↦ rw s (s, refl)
  ]

  size_checked-Sound :
      (model : CatalogModel) (modality : Bool)
      → SoundHere (size_checked json_bytes input d model modality)
  size_checked-Sound model modality = elim (Bool-cases (is_some input.scope_id)) [
    | inl s ↦ elim (Bool-cases (is_some input.route.context_tokens)) [
      | inl c ↦ rw (s, c) (size_scoped-Sound modality d.options.num_predict refl)
      | inr c ↦ rw (s, c) (size_bounded-Sound model d.options.num_predict refl)
    ]
    | inr s ↦ elim (Bool-cases (is_some input.route.context_tokens)) [
      | inl c ↦ rw (s, c) ((s, refl), refl)
      | inr c ↦ elim (Bool-cases modality) [
        | inl m ↦ rw (s, c, m) (s, refl)
        | inr m ↦ rw (s, c, m) (size_bounded-Sound model d.options.num_predict refl)
      ]
    ]
  ]

  pub size_context-Sound :
      (model : CatalogModel) → SoundHere (size_context json_bytes input d model)
  unfolding size_context
  size_context-Sound model = elim (Bool-cases input.warms) [
    | inl w ↦ simp w ((refl, refl), refl)
    | inr w ↦
        elim (Bool-cases
          (is_some input.scope_id && is_none_or d.options.num_predict (λ output. output == 0))) [
            | inl a ↦ simp (w, a) tt
            | inr a ↦
                let modality = has_unestimated_modality input in
                elim (Bool-cases (
                  is_some input.scope_id && modality && not (is_some input.route.context_tokens))) [
                    | inl b ↦ simp (w, a, b) tt
                    | inr b ↦ simp (w, a, b) (size_checked-Sound model modality)
                  ]
          ]
  ]

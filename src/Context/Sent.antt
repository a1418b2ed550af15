-- ===== src/Context/Sent.antt =====
-- The window that is sent in the end, and its receipt (packages/rust-core/src/platform/context.rs and
-- execution/pipeline.rs).
use free_llama.Base.{
  ℕ, ◌≤◌, ◌<◌, ◌≡◌, ◌^◌, ◌∙◌, refl, inl, inr, true, false, not, ◌&&◌, ◌||◌, List, Option, none,
  some, String, ltb, leb, ◌==◌, is_some, is_none_or, arith, Bool-cases, Result, ok, err,
}
use free_llama.Routing.{CatalogModel, RouteDecision}
use free_llama.Context.{
  ContextInput, ContextMessage, ContextReceipt, ContextError, Sizing, set_num_ctx,
}
use free_llama.Context.Steps.{
  Loaded, Tunables, Answers, SettledContext, reuse_context, reuse_resident_context, leave_default,
  context_left_to_ollama, reuse_if_resident, settle_sized, settle_context, is_ollama_default,
  is_prompt_estimate, same_revision, loaded_otherwise,
}
use free_llama.Context.Covers.{Covers, Sound, size_context-Sound}

-- The window stays or, where it was sized by an estimate, grows; the model and its output budget stay.
pub record Widens (r : ContextReceipt) (d e : RouteDecision) : Type 0 where
  pub wider : d.options.num_ctx ≤ e.options.num_ctx
  pub fixed : is_prompt_estimate r ≡ false → d.options.num_ctx ≡ e.options.num_ctx
  pub budget : e.options.num_predict ≡ d.options.num_predict
  pub model : e.selected_model ≡ d.selected_model

Widens-refl : (r : ContextReceipt) (d : RouteDecision) → Widens r d d
Widens-refl r d = record { wider = omega arith; fixed = λ h. refl; budget = refl; model = refl }

Widens-trans :
    (r : ContextReceipt) (d e f : RouteDecision) → Widens r d e → Widens r e f → Widens r d f
Widens-trans r d e f a b = record {
  wider = omega (arith, a.wider, b.wider);
  fixed = λ h. a.fixed h ∙ b.fixed h;
  budget = b.budget ∙ a.budget;
  model = b.model ∙ a.model;
}

set_num_ctx-Widens :
    (r : ContextReceipt) (d : RouteDecision) (n : ℕ) (reasons : List String)
    → is_prompt_estimate r ≡ true
    → d.options.num_ctx ≤ n
    → Widens r d (set_num_ctx d n reasons)
set_num_ctx-Widens r d n reasons e le = record {
  wider = le;
  fixed = λ h. cc;
  budget = refl;
  model = refl;
}

reuse_context-Widens :
    (r : ContextReceipt) (d : RouteDecision) (model : CatalogModel) (loaded : Loaded) (o : Option ℕ)
    → is_prompt_estimate r ≡ true
    → Widens r d (reuse_context d model loaded o).0
reuse_context-Widens r d model loaded none e = Widens-refl r d
reuse_context-Widens r d model loaded (some context) e =
    elim (Bool-cases (
      not (same_revision model.digest loaded.digest)
      || ltb context d.options.num_ctx
      || context == d.options.num_ctx)) [
        | inl t ↦ simp t (Widens-refl r d)
        | inr t ↦ simp t (set_num_ctx-Widens r d context _ e (ground (arith, t)))
      ]

reuse_resident_context-Widens :
    (r : ContextReceipt) (d : RouteDecision) (model : CatalogModel) (loaded : Option Loaded)
    → is_prompt_estimate r ≡ true
    → Widens r d (reuse_resident_context d model loaded).0
unfolding reuse_resident_context
reuse_resident_context-Widens r d model none e = Widens-refl r d
reuse_resident_context-Widens r d model (some loaded) e =
    reuse_context-Widens r d model loaded loaded.context_length e

reuse_if_resident-Widens :
    (r : ContextReceipt) (d : RouteDecision) (model : CatalogModel) (loaded : Option Loaded)
    → Widens r d (reuse_if_resident d model r loaded).0
reuse_if_resident-Widens r d model loaded = elim (Bool-cases (d.resident && is_prompt_estimate r)) [
  | inl t ↦ simp t (reuse_resident_context-Widens r d model loaded (ground (arith, t)))
  | inr t ↦ simp t (Widens-refl r d)
]

leave_default-Widens :
    (t : Tunables) (r : ContextReceipt) (d : RouteDecision) (model : CatalogModel)
    (loaded : Option Loaded) (o : Option ℕ)
    → is_prompt_estimate r ≡ true
    → Widens r d (leave_default t d model loaded o).0
leave_default-Widens t r d model loaded none e = Widens-refl r d
leave_default-Widens t r d model loaded (some default) e =
    elim (Bool-cases (
      ltb default d.options.num_ctx
      || ltb t.auto_context_max default
      || not (is_none_or model.advertised_context (λ window. leb default window)))) [
        | inl a ↦ simp a (Widens-refl r d)
        | inr a ↦ elim (Bool-cases (d.resident && loaded_otherwise loaded default)) [
          | inl b ↦ simp (a, b) (Widens-refl r d)
          | inr b ↦ simp (a, b) (set_num_ctx-Widens r d default _ e (ground (arith, a)))
        ]
      ]

context_left-Widens :
    (t : Tunables) (r : ContextReceipt) (d : RouteDecision) (model : CatalogModel)
    (reused : Option ℕ) (loaded : Option Loaded) (o : Option ℕ)
    → Widens r d (context_left_to_ollama t d model r reused loaded o).0
unfolding context_left_to_ollama
context_left-Widens t r d model reused loaded o =
    elim (Bool-cases
      (not (is_ollama_default t.context_mode) || not (is_prompt_estimate r) || is_some reused)) [
        | inl a ↦ rw a (Widens-refl r d)
        | inr a ↦ rw a (leave_default-Widens t r d model loaded o (ground (arith, a)))
      ]

module _ (json_bytes : List ContextMessage → ℕ) (input : ContextInput) (d : RouteDecision)
    (word : d.options.num_ctx < 2 ^ 32) where
  Covers-Widens :
      (r : ContextReceipt) (e f : RouteDecision)
      → Widens r e f
      → Covers json_bytes input d.options.num_predict r e.options.num_ctx
      → Covers json_bytes input d.options.num_predict r f.options.num_ctx
  Covers-Widens (ContextReceipt.warm_profile n) e f w (a, c) = (a, c ∙ w.fixed refl)
  Covers-Widens (ContextReceipt.explicit n) e f w (a, c) = (a, c ∙ w.fixed refl)
  Covers-Widens (ContextReceipt.profile s) e f w c = c
  Covers-Widens (ContextReceipt.scope_explicit_multimodal n x y) e f w (a, b, c, le) =
      (a ∙ w.fixed refl, b, c, omega (arith, w.wider, le))
  Covers-Widens (ContextReceipt.scope_explicit_estimate n x y) e f w (a, b, c, le) =
      (a ∙ w.fixed refl, b, c, omega (arith, w.wider, le))
  Covers-Widens (ContextReceipt.prompt_estimate n x y cap) e f w (a, b, c, g, h, least, le) =
      (a, b, c, g, h, least, omega (arith, w.wider, le))

  -- What a settled context promises.
  abbrev pub IsSent : Result SettledContext ContextError → Type 0
  IsSent (err e) = Unit
  IsSent (ok s) =
      Covers json_bytes input d.options.num_predict s.receipt s.decision.options.num_ctx
      × (s.decision.options.num_predict ≡ d.options.num_predict)

  settle_sized-IsSent :
      (t : Tunables) (model : CatalogModel) (answers : Answers) (r : Sizing)
      → Sound json_bytes input d.options.num_predict r
      → IsSent (settle_sized t model answers r)
  settle_sized-IsSent t model answers (err e) h = tt
  settle_sized-IsSent t model answers (ok (r, e)) (c, p) =
      let reuse = reuse_if_resident e model r answers.loaded in
      let w =
        Widens-trans r e reuse.0 _ (reuse_if_resident-Widens r e model answers.loaded)
          (context_left-Widens t r reuse.0 model reuse.1 answers.loaded_later answers.default) in
      (Covers-Widens r e _ w c, w.budget ∙ p)

  -- For a decision whose window is below 2 ^ 32: whatever the backend answers, an accepted task is
  -- sent with a window that its receipt describes. Where the receipt has an estimate, it is that of
  -- the task, and with the output budget and the margin it fits the window; an automatic size is at
  -- most each bucket that they fit and at most its cap, which is at most 32768. A task with a scope
  -- gets no receipt without an estimate unless it only warms a model.
  pub settle_context-IsSent :
      (t : Tunables) (model : CatalogModel) (answers : Answers)
      → IsSent (settle_context json_bytes t input d model answers)
  unfolding settle_context
  settle_context-IsSent t model answers =
      settle_sized-IsSent t model answers _ (size_context-Sound json_bytes input d word model)

-- ===== src/Anthropic/Request/Budget.antt =====
-- The thinking budget of app/proxy/chat_to_anthropic.py against the ceiling of the caller.
use inference_proxy.Prelude.{
  ℕ, ◌+◌, ◌≤◌, ◌<◌, ◌-◌, ltb, dec_lt, String, Option, none, some, ◌≡◌, refl, arith, if◌then◌else◌,
  or_else, ◌∙◌, ap, sym, subst,
}
use inference_proxy.Prelude.Int.{pos, ◌-ℤ◌, scale}
use inference_proxy.Text.{lower, strip}
use inference_proxy.Json.{Value, int, Fields, get, lookup}
use inference_proxy.Anthropic.Request.Result.{ok, ok-injective}
use inference_proxy.Anthropic.Request.Thinking.{
  Plan, effort_in, fitted, plan_thinking, budget_named, thinking_for, requested_budget,
  thinking_headroom, min_thinking_budget,
}
use inference_proxy.Anthropic.Request.Body.{
  Body, sampling, ceiling, transform_to_anthropic_messages, transform-eq-ok,
}

-- What Anthropic asks of the two figures, and what the caller was promised of its ceiling.
abbrev pub Fits : ℕ → ℕ → Option Value → Type 0
Fits ceiling wanted none = ceiling < min_thinking_budget + thinking_headroom
Fits ceiling wanted (some (int (pos b))) =
    (min_thinking_budget ≤ b) × (b ≤ wanted) × (b + thinking_headroom ≤ ceiling)
Fits ceiling wanted (some v) = ⊥

abbrev room_for : ℕ → ℕ → Option Value
room_for n wanted =
    if ltb n (min_thinking_budget + thinking_headroom)
    then none
    else some
        (int (pos (if ltb (n - thinking_headroom) wanted then n - thinking_headroom else wanted)))

room_low :
    (n wanted : ℕ)
    → n < 4096
    → min_thinking_budget ≤ wanted
    → fitted wanted (int (pos n -ℤ pos thinking_headroom)) ≡ room_for n wanted
unfolding ◌-ℤ◌ scale
room_low n wanted h w = ground arith

room_high :
    (n wanted : ℕ)
    → min_thinking_budget ≤ wanted
    → fitted wanted (int (pos n)) ≡ room_for (n + 4096) wanted
unfolding scale
room_high n wanted w = ground arith

abbrev planned : ℕ → ℕ → Plan
planned n wanted = record { max_tokens = int (pos n); budget = room_for n wanted }

plan_with_ceiling :
    (n wanted : ℕ)
    → 0 < n
    → min_thinking_budget ≤ wanted
    → plan_thinking (int (pos n)) (some wanted) ≡ ok (planned n wanted)
unfolding plan_thinking
plan_with_ceiling n wanted h w = elim (dec_lt n 4096) [
  | yes low ↦ ground (arith, room_low n wanted low w)
  | no high ↦
      let e : pos n -ℤ pos thinking_headroom ≡ pos (n - 4096) = unfold ◌-ℤ◌ in ground arith in
      ground (arith, e, room_high (n - 4096) wanted w)
]

room_for-Fits : (n wanted : ℕ) → min_thinking_budget ≤ wanted → Fits n wanted (room_for n wanted)
room_for-Fits n wanted w = ground arith

abbrev AtFloor : Option ℕ → Type 0
AtFloor none = Unit
AtFloor (some b) = min_thinking_budget ≤ b

budget_named_floor : (effort : String) → AtFloor (budget_named effort)
unfolding budget_named
budget_named_floor effort = ground arith

thinking_for_floor : (v : Value) → AtFloor (thinking_for v)
unfolding thinking_for
thinking_for_floor (Value.str s) = budget_named_floor (lower (strip s))
thinking_for_floor Value.null = tt
thinking_for_floor _ = tt

effort_in_floor : (v : Value) → AtFloor (effort_in v)
effort_in_floor (Value.obj fs) = thinking_for_floor (get "effort" fs)
effort_in_floor Value.null = tt
effort_in_floor _ = tt

or_else_floor : (a b : Option ℕ) → AtFloor a → AtFloor b → AtFloor (or_else a b)
or_else_floor none b h k = k
or_else_floor (some n) b h k = h

requested_budget_floor : (request : Fields) → AtFloor (requested_budget request)
unfolding requested_budget
requested_budget_floor request =
    or_else_floor (thinking_for (get "reasoning_effort" request))
      (effort_in (get "reasoning" request)) (thinking_for_floor (get "reasoning_effort" request))
      (effort_in_floor (get "reasoning" request))

-- the sampling parameters beside a budget, or beside none
abbrev pub SampledBeside : Option Value → Fields → Option Value → Option Value → Type 0
unfolding lookup
SampledBeside none request temperature top_p =
    (temperature ≡ lookup "temperature" request) × (top_p ≡ lookup "top_p" request)
SampledBeside (some budget) request temperature top_p = (temperature ≡ none) × (top_p ≡ none)

abbrev pub Sampled : Fields → Body → Type 0
Sampled request body = SampledBeside body.budget request body.temperature body.top_p

sampling-SampledBeside :
    (budget : Option Value) (request : Fields)
    → SampledBeside budget request
        (sampling "temperature" request budget)
        (sampling "top_p" request budget)
unfolding lookup
sampling-SampledBeside none request = (refl, refl)
sampling-SampledBeside (some budget) request = (refl, refl)

module _ (dumps : Value → String) (loads : String → Option Value) (mint : ℕ → ℕ → String) where
  module _ (request : Fields) (streaming : Value) (model : String) where
    -- A request with a reasoning effort and a ceiling `n` of its own: the ceiling goes out as it
    -- came; the budget is at least Anthropic's floor, at most what the effort stands for, and
    -- leaves the headroom under the ceiling; and it is left out exactly where none would fit. The
    -- sampling parameters go out as the caller sent them, but not beside a budget.
    pub thinking_under_ceiling :
        (body : Body) (n wanted : ℕ)
        → transform_to_anthropic_messages dumps loads mint request streaming model ≡ ok body
        → ceiling request ≡ int (pos n)
        → 0 < n
        → requested_budget request ≡ some wanted
        → (body.max_tokens ≡ int (pos n)) × Fits n wanted body.budget × Sampled request body
    thinking_under_ceiling body n wanted h c positive r =
        let (listed, done, plan, tools, e₁, e₂, made, e₄, whole) =
          transform-eq-ok dumps loads mint request streaming model body h in
        let floor = (rw r at (requested_budget_floor request)) in
        let known : ok (planned n wanted) ≡ ok plan =
          sym (plan_with_ceiling n wanted positive floor) ∙ (rw (c, r) at made) in
        let same : planned n wanted ≡ plan = ok-injective known in
        rw whole (
          sym (ap (λ p. p.max_tokens) same),
          subst (λ p. Fits n wanted p.budget) same (room_for-Fits n wanted floor),
          sampling-SampledBeside plan.budget request,
        )

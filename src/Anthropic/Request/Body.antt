-- ===== src/Anthropic/Request/Body.antt =====
-- app/proxy/chat_to_anthropic.py: `transform_to_anthropic_messages`.
use inference_proxy.Prelude.{ℕ, String, Option, none, some, List, [], ◌∷◌, if◌then◌else◌, ◌≡◌, sym}
use mathlib.Core.List.{reverse}
use inference_proxy.Json.{Value, str, arr, items, Fields, get, lookup, or_value, is_empty_text}
use inference_proxy.Anthropic.Request.Result.{Result, ok, ◌>>=◌, bind-eq-ok, ok-injective}
use inference_proxy.Anthropic.Request.Tools.{Tool, Choice, translate_tools, translate_tool_choice}
use inference_proxy.Anthropic.Request.Thinking.{Plan, plan_thinking, requested_budget}
use inference_proxy.Anthropic.Request.Messages.{Turn, Progress, add_messages, iterated}

pub record Body : Type 0 where
  pub model : String
  pub messages : List Turn
  pub max_tokens : Value
  pub stream : Value
  pub system : Option String
  pub budget : Option Value
  pub temperature : Option Value
  pub top_p : Option Value
  pub stop_sequences : List Value
  pub tools : List Tool
  pub tool_choice : Option Choice

abbrev nonempty : String → Option String
nonempty s = if is_empty_text s then none else some s

-- sampling parameters go out only if thinking does not
abbrev pub sampling : String → Fields → Option Value → Option Value
sampling key request none = lookup key request
sampling key request (some budget) = none

abbrev stops : Value → List Value
stops (str s) = if is_empty_text s then [] else str s ∷ []
stops (arr vs) = items vs
stops _ = []

abbrev choice_for : List Tool → Value → Option Choice
choice_for [] choice = none
choice_for (t ∷ ts) choice = translate_tool_choice choice

abbrev pub assemble : Fields → Value → String → Progress → Plan → List Tool → Body
assemble request streaming model done plan tools = record {
  model = model;
  messages = reverse done.turns;
  max_tokens = plan.max_tokens;
  stream = streaming;
  system = nonempty done.system_text;
  budget = plan.budget;
  temperature = sampling "temperature" request plan.budget;
  top_p = sampling "top_p" request plan.budget;
  stop_sequences = stops (get "stop" request);
  tools = tools;
  tool_choice = choice_for tools (get "tool_choice" request);
}

abbrev pub ceiling : Fields → Value
ceiling request = or_value (get "max_tokens" request) (get "max_completion_tokens" request)

abbrev pub blank : Progress
blank = record { system_text = ""; turns = [] }

module _ (dumps : Value → String) (loads : String → Option Value) (mint : ℕ → ℕ → String) where
  unfoldable pub transform_to_anthropic_messages : Fields → Value → String → Result Body
  unfolding get lookup add_messages plan_thinking requested_budget translate_tools
      translate_tool_choice
  transform_to_anthropic_messages request streaming model = do
    listed ← iterated (get "messages" request)
    done ← add_messages dumps loads mint 0 listed blank
    plan ← plan_thinking (ceiling request) (requested_budget request)
    tools ← translate_tools loads (get "tools" request)
    ok (assemble request streaming model done plan tools)

  -- The parts of a translation that succeeded.
  pub transform-eq-ok :
      (request : Fields) (streaming : Value) (model : String) (body : Body)
      → transform_to_anthropic_messages request streaming model ≡ ok body
      → (listed : List Value) × (done : Progress) × (plan : Plan) × (tools : List Tool) × (iterated
            (get "messages" request)
          ≡ ok listed)
        × (add_messages dumps loads mint 0 listed blank ≡ ok done)
        × (plan_thinking (ceiling request) (requested_budget request) ≡ ok plan)
        × (translate_tools loads (get "tools" request) ≡ ok tools)
        × (body ≡ assemble request streaming model done plan tools)
  unfolding transform_to_anthropic_messages
  transform-eq-ok request streaming model body h =
      let (listed, e₁, h₁) = bind-eq-ok (iterated (get "messages" request)) _ h in
      let (done, e₂, h₂) = bind-eq-ok (add_messages dumps loads mint 0 listed blank) _ h₁ in
      let (plan, e₃, h₃) =
        bind-eq-ok (plan_thinking (ceiling request) (requested_budget request)) _ h₂ in
      let (tools, e₄, h₄) = bind-eq-ok (translate_tools loads (get "tools" request)) _ h₃ in
      (listed, done, plan, tools, e₁, e₂, e₃, e₄, sym (ok-injective h₄))

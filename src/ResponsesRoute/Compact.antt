-- ===== src/ResponsesRoute/Compact.antt =====
-- app/proxy/compact.py: `responses_compact`, which asks the upstream for a summary of a conversation.
-- What only is logged is left out, but not the exceptions that writing the log raises.
use Prim.Native.String
use inference_proxy.Prelude.{
  ℕ, zero, suc, String, Bool, true, false, not, ◌&&◌, Option, none, some, List, [], ◌∷◌, ◌++◌,
  if◌then◌else◌, any, eqb, Map,
}
use inference_proxy.Json.{
  Value, bool, str, arr, obj, Fields, end, field, list, items, get, lookup, put, truthy, is_object,
  is_text, is_empty_text,
}
use inference_proxy.Auth.{validate_api_key, resolve_principal, resolve_requester_role}
use inference_proxy.Metering.{Scheduled, schedule}
use inference_proxy.Credentials.World.{World}
use inference_proxy.Deployments.Registry.{openai_responses}
use inference_proxy.Deployments.Target.{DeploymentTarget, upstream_url}
use inference_proxy.Deployments.Resolve
use inference_proxy.Deployments.Resolve.{
  openai, Outcome, found, refused, raised, resolve_deployment, reject_wrong_protocol,
}
use inference_proxy.Completions.Answers.{
  Served, replied, raised_error, not_served, crashed, Principal, Answer, schedule_value, after_row,
}
use inference_proxy.Completions.Entry.{Posted, no_connection, timed_out, broke, answered}
use inference_proxy.ResponsesRoute.Handlers.{send}
use inference_proxy.ResponsesRoute.Entry.{Request, Setting, model_name, is_admin, refused_status}

-- whether `v.get` exists for each
abbrev pub all_objects : List Value → Bool
all_objects vs = not (any (λ v. not (is_object v)) vs)

abbrev pub first_objects : ℕ → List Value → Bool
first_objects zero vs = true
first_objects (suc n) [] = true
first_objects (suc n) (v ∷ vs) = is_object v && first_objects n vs

-- the conversation, a list that `+` extends; `none` is an exception
unfoldable pub input_of : Option Value → Option (List Value)
input_of none = some []
input_of (some (arr vs)) = if all_objects (items vs) then some (items vs) else none
input_of (some _) = none

unfoldable pub tools_of : Option Value → Option (List Value)
tools_of none = some []
tools_of (some (arr vs)) = if first_objects 5 (items vs) then some (items vs) else none
tools_of (some (str text)) = if is_empty_text text then some [] else none
tools_of (some (obj end)) = some []
tools_of (some _) = none

-- `len(instructions or '')` is a number
abbrev pub has_length : Value → Bool
has_length (str text) = true
has_length (arr vs) = true
has_length (obj fs) = true
has_length v = not (truthy v)

abbrev pub compact_system_prompt : String
compact_system_prompt = String.◌++◌ "You are performing a CONTEXT CHECKPOINT COMPACTION. " (
    String.◌++◌ "Create a handoff summary for another LLM that will resume the task. " (
      String.◌++◌ "Include: Current progress and key decisions made, " (
        String.◌++◌ "Important context/constraints/user preferences, " (
          String.◌++◌ "What remains to be done, " (
            String.◌++◌ "Any critical data/examples/references needed to continue. "
              "Be concise, structured, and focused on helping the next LLM seamlessly continue the work.")))))

abbrev pub message : Value → Fields
message content =
    field "type" (str "message") (field "role" (str "user") (field "content" content end))

unfoldable pub with_instructions : Fields → Fields → Fields
unfolding get put
with_instructions body azure_body =
    if truthy (get "instructions" body)
    then put "instructions" (get "instructions" body) azure_body
    else azure_body

unfoldable pub with_tools : List Value → Fields → Fields
unfolding put
with_tools [] azure_body = azure_body
with_tools (v ∷ vs) azure_body = put "tools" (list (v ∷ vs)) azure_body

abbrev pub asking : String → List Value → Fields
asking model input_items = field "model" (str model) (
    field "input" (list (input_items ++ obj (message (str compact_system_prompt)) ∷ []))
      (field "store" (bool false) (field "stream" (bool false) end)))

unfoldable pub compact_body : String → List Value → List Value → Fields → Fields
unfolding with_instructions with_tools
compact_body model input_items tools body =
    with_tools tools (with_instructions body (asking model input_items))

-- what a `for` goes through whose items must have a `get`
abbrev pub iterated : Option Value → Option (List Value)
iterated none = some []
iterated (some (arr vs)) = some (items vs)
iterated (some (str text)) = if is_empty_text text then some [] else none
iterated (some (obj end)) = some []
iterated (some _) = none

abbrev joined : Option String → Option String → Option String
joined (some text) (some rest) = some (String.◌++◌ text rest)
joined _ _ = none

-- the texts of a list, joined
abbrev pub each : (Value → Option String) → List Value → Option String
each text [] = some ""
each text (v ∷ vs) = joined (text v) (each text vs)

abbrev each_of : (Value → Option String) → Option (List Value) → Option String
each_of text none = none
each_of text (some vs) = each text vs

abbrev plain_text : Option Value → Option String
plain_text none = some ""
plain_text (some (str text)) = some text
plain_text (some _) = none

abbrev block_text : Value → Option String
unfolding get lookup
block_text (obj block) =
    if is_text "output_text" (get "type" block) then plain_text (lookup "text" block) else some ""
block_text _ = none

abbrev item_text : Value → Option String
unfolding block_text get lookup
item_text (obj item) =
    if is_text "message" (get "type" item) && is_text "assistant" (get "role" item)
    then each_of block_text (iterated (lookup "content" item))
    else some ""
item_text _ = none

unfoldable pub summary_text : Fields → Option String
unfolding item_text lookup
summary_text result = each_of item_text (iterated (lookup "output" result))

abbrev resumption : String
resumption = String.◌++◌ "SESSION RESUMPTION. You are continuing a prior session — " (
    String.◌++◌ "DO NOT re-introduce yourself, DO NOT acknowledge or reload " (
      String.◌++◌ "repository instructions, DO NOT restart the task. The summary " (
        String.◌++◌ "below IS your memory; treat it as your own prior work and "
          "continue from exactly where it leaves off.\n\n")))

unfoldable pub compacted : String → Value
compacted summary = obj (
    field "output"
      (list (
        obj (
          message (
            list (
              obj (
                field "type" (str "input_text")
                  (field "text" (str (String.◌++◌ resumption summary)) end))
              ∷ [])))
        ∷ []))
      end)

unfoldable pub summarized : Option String → Served
unfolding compacted
summarized none = crashed
summarized (some summary) = replied 200 (compacted summary)

-- the row is asked for before the summary is read
unfoldable pub on_result : Principal → Option Value → Answer
unfolding summarized summary_text schedule_value get
on_result principal (some (obj result)) =
    after_row (schedule_value principal 200 (get "usage" result)) (summarized (summary_text result))
on_result principal _ = (crashed, none)

unfoldable pub failed_row : Principal → ℕ → String → Option Scheduled
unfolding schedule
failed_row principal status error = some (schedule principal status (some (str error)) end)

unfoldable pub on_compacted : (String → Option Value) → (ℕ → String) → Principal → Posted → Answer
unfolding on_result failed_row
on_compacted loads decimal principal no_connection = (
  raised_error 502 "Failed to reach Azure endpoint for compaction",
  failed_row principal 502 "connect_error",
)
on_compacted loads decimal principal timed_out = (
  raised_error 504 "Azure endpoint timed out during compaction",
  failed_row principal 504 "timeout",
)
on_compacted loads decimal principal broke = (crashed, none)
on_compacted loads decimal principal (answered reply) =
    if eqb reply.status 200 then on_result principal (loads reply.text) else (
      raised_error reply.status
          (String.◌++◌ "Azure API error during compaction: " (decimal reply.status)),
      failed_row principal reply.status (String.◌++◌ "azure_" (decimal reply.status)),
    )

module _ (s : Setting) where
  abbrev api_key_headers : DeploymentTarget → Map String
  api_key_headers target = ("api-key", target.api_key) ∷ ("Content-Type", "application/json") ∷ []

  abbrev guarded : Principal → DeploymentTarget → Fields → Option Resolve.Refusal → Answer
  unfolding on_compacted upstream_url send
  guarded principal target azure_body (some r) = (not_served r, none)
  guarded principal target azure_body none =
      on_compacted s.loads s.decimal principal
        (send (λ sent. s.post (upstream_url target) (api_key_headers target) sent false)
          azure_body).outcome

  abbrev to_target :
      Principal → Fields → List Value → List Value → Outcome DeploymentTarget → Answer
  unfolding guarded reject_wrong_protocol compact_body
  to_target principal body input_items tools (refused r) = (not_served r, none)
  to_target principal body input_items tools raised = (crashed, none)
  to_target principal body input_items tools (found target) =
      guarded principal target (compact_body target.name input_items tools body)
        (reject_wrong_protocol openai target openai_responses)

  abbrev checked :
      Request → Fields → Option (List Value) → Option (List Value) → World → Answer × World
  unfolding to_target resolve_deployment resolve_principal resolve_requester_role get
  checked request body (some input_items) (some tools) w =
      let (o, w') =
        resolve_deployment s.claims s.grant s.stamp s.rows (model_name s (get "model" body)) openai
          (is_admin s
            (resolve_requester_role s.sha256 s.cache request.authorization request.api_key))
          (some openai_responses) none w in
      (
        to_target (resolve_principal s.sha256 s.cache request.authorization request.api_key) body
            input_items tools o,
        w',
      )
  checked request body input_items tools w = ((crashed, none), w)

  abbrev admitted : Request → Option Value → World → Answer × World
  unfolding checked input_of tools_of get lookup
  admitted request none w = ((raised_error 400 "Invalid JSON in request body", none), w)
  admitted request (some (obj body)) w =
      if has_length (get "instructions" body)
      then checked request body (input_of (lookup "input" body)) (tools_of (lookup "tools" body)) w
      else ((crashed, none), w)
  admitted request (some v) w = ((crashed, none), w)

  unfoldable pub responses_compact : Request → World → Answer × World
  unfolding admitted validate_api_key
  responses_compact request w =
      if validate_api_key s.sha256 s.cache request.authorization request.api_key
      then admitted request request.body w
      else ((raised_error (refused_status s request) "Invalid API key", none), w)

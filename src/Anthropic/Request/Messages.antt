-- ===== src/Anthropic/Request/Messages.antt =====
-- app/proxy/chat_to_anthropic.py: the loop over the messages.
use Prim.Native.String
use inference_proxy.Prelude.{
  ℕ, suc, String, Bool, true, false, ◌||◌, Option, List, [], ◌∷◌, ◌++◌, ◌==◌, if◌then◌else◌, all,
}
use inference_proxy.Json.{Value, str, arr, obj, Fields, get, items, is_empty_text, truthy}
use inference_proxy.Anthropic.Request.Result.{Result, ok, err, ◌>>=◌, crash}
use inference_proxy.Anthropic.Request.Content.{
  Block, tool_result, text_of, content_blocks, reasoning_blocks, tool_use_blocks, tool_result_block,
}

pub data Role : Type 0 where
  user assistant : Role

pub record Turn : Type 0 where
  pub role : Role
  pub content : List Block

-- `system_text` and `messages`, the last turn first
pub record Progress : Type 0 where
  pub system_text : String
  pub turns : List Turn

pub data Speaker : Type 0 where
  system tool assistant other : Speaker

-- how the loop tells the roles apart
unfoldable pub speaker : Value → Speaker
speaker (str role) =
    if (role == "system") || (role == "developer")
    then system
    else if role == "tool"
    then tool
    else if role == "assistant"
    then assistant
    else other
speaker _ = other

abbrev pub is_result : Block → Bool
is_result (tool_result id content) = true
is_result _ = false

-- a user turn of tool results alone
abbrev pub is_results : Turn → Bool
is_results turn = elim turn.role [ user ↦ all is_result turn.content | assistant ↦ false ]

abbrev add_line : String → String → String
add_line system_text text =
    if is_empty_text system_text then text else String.◌++◌ system_text (String.◌++◌ "\n" text)

unfoldable pub add_system : String → Progress → Progress
add_system text p =
    if is_empty_text text then p else record p { system_text = add_line p.system_text text }

-- A result joins the turn before it if that one holds results alone.
unfoldable pub add_result : Block → List Turn → List Turn
add_result block [] = record { role = user; content = block ∷ [] } ∷ []
add_result block (last ∷ before) =
    if is_results last
    then record last { content = last.content ++ block ∷ [] } ∷ before
    else record { role = user; content = block ∷ [] } ∷ last ∷ before

unfoldable pub add_turn : Role → List Block → List Turn → List Turn
add_turn role [] turns = turns
add_turn role (b ∷ bs) turns = record { role = role; content = b ∷ bs } ∷ turns

module _ (dumps : Value → String) (loads : String → Option Value) (mint : ℕ → ℕ → String) where
  unfoldable pub add_message : Speaker → ℕ → Fields → Progress → Result Progress
  unfolding get text_of add_system tool_result_block add_result reasoning_blocks content_blocks
      tool_use_blocks add_turn
  add_message system i message p = do
    text ← text_of dumps (get "content" message)
    ok (add_system text p)
  add_message tool i message p = do
    block ← tool_result_block dumps message
    ok (record p { turns = add_result block p.turns })
  add_message assistant i message p = do
    said ← content_blocks dumps (get "content" message)
    let thought = reasoning_blocks (get "reasoning_details" message)
    let called = tool_use_blocks loads mint i (get "tool_calls" message)
    ok (record p { turns = add_turn Role.assistant (thought ++ said ++ called) p.turns })
  add_message other i message p = do
    said ← content_blocks dumps (get "content" message)
    ok (record p { turns = add_turn user said p.turns })

  abbrev pub add_value : ℕ → Value → Progress → Result Progress
  add_value i (obj message) p = add_message (speaker (get "role" message)) i message p
  add_value i _ p = ok p

  unfoldable pub add_messages : ℕ → List Value → Progress → Result Progress
  unfolding get speaker add_message
  add_messages i [] p = ok p
  add_messages i (v ∷ vs) p = do q ← add_value i v p; add_messages (suc i) vs q

-- what the loop iterates over: a text or a dict gives texts, which it passes over
abbrev pub iterated : Value → Result (List Value)
iterated (arr vs) = ok (items vs)
iterated (str s) = ok []
iterated (obj fs) = ok []
iterated v = if truthy v then err crash else ok []

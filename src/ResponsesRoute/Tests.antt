-- ===== src/ResponsesRoute/Tests.antt =====
-- An upstream that cannot decrypt the reasoning of a conversation, for app/proxy/responses.py.
use inference_proxy.Prelude.{ℕ, length, String, false, Option, none, some, [], ◌∷◌, ◌≡◌, refl}
use inference_proxy.Json.{Value, str, obj, Fields, end, field, list, get, items, arr}
use inference_proxy.Completions.Answers.{Upstream}
use inference_proxy.Completions.Entry.{Posted, answered}
use inference_proxy.ResponsesRoute.Handlers.{send, handle_streaming, handle_non_streaming}
use inference_proxy.ResponsesRoute.Compact.{compact_body}
use inference_proxy.ResponsesRoute.Summary.{AllAsk, send-AllAsk}
use inference_proxy.ResponsesRoute.Retried.{Tries, posts_at_most_twice, refused_alike}

abbrev thought : Value
thought = obj (field "type" (str "reasoning") end)

abbrev body : Fields
body = field "input" (list (thought ∷ str "hello" ∷ [])) end

abbrev refuses : String → Upstream
refuses text = record { status = 400; text = text; lines = []; broken = false }

abbrev post : Fields → Posted
unfolding get
post sent = elim (get "input" sent) [
  | arr is ↦ elim (items is) [
    | v ∷ w ∷ vs ↦ answered (refuses "invalid_encrypted_content")
    | _ ↦ answered (refuses "no such model")
  ]
  | _ ↦ answered (refuses "no such model")
]

abbrev loads : String → Option Value
loads s = none

abbrev decimal : ℕ → String
decimal n = "400"

posts_at_most_twice_example :
    Tries post body (send post body).posted
    × ((handle_streaming loads decimal post (some (3, 5)) body).posted ≡ (send post body).posted)
posts_at_most_twice_example = posts_at_most_twice loads decimal post (some (3, 5)) body

posts_twice : (send post body).posted ≡ body ∷ field "input" (list (str "hello" ∷ [])) end ∷ []
unfolding send post
posts_twice = refl

refused_alike_example :
    (handle_streaming loads decimal post (some (3, 5)) body).handled.0
    ≡ (handle_non_streaming loads decimal post (some (3, 5)) body).0
unfolding send post
refused_alike_example = refused_alike loads decimal post (some (3, 5)) body refl

send-AllAsk_example :
    AllAsk (thought ∷ []) (send post (compact_body "gpt" (thought ∷ []) [] end)).posted
send-AllAsk_example = send-AllAsk post "gpt" (thought ∷ []) [] end

asks_twice : length (send post (compact_body "gpt" (thought ∷ []) [] end)).posted ≡ 2
unfolding send post compact_body inference_proxy.Text.contains
asks_twice = refl

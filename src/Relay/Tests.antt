-- ===== src/Relay/Tests.antt =====
-- A stream that fails twice and then goes through, for app/proxy/websocket.py.
use inference_proxy.Prelude.{
  ℕ, zero, suc, String, true, false, Option, none, List, [], ◌∷◌, ◌++◌, map, ◌≡◌, refl, ◌<◌, arith,
}
use inference_proxy.Text
use inference_proxy.Json.{Value, str, Fields, end, field}
use inference_proxy.Relay.Lines.{text, Turn, over, read_lines}
use inference_proxy.Relay.Attempts.{Reply, replied, State, opened, start, relay}
use inference_proxy.Relay.Order.{shown, payloads, read_lines-order}
use inference_proxy.Relay.Delivered.{Refuses, relay-Delivered}
use inference_proxy.Relay.Single.{SpeaksOnce, relay-SpeaksOnce}

abbrev loads : String → Option Value
loads s = none

abbrev created : String
created = "{\"type\":\"response.created\"}"

abbrev delta : String
delta = "{\"type\":\"response.output_text.delta\"}"

abbrev failure : String
failure = "{\"type\":\"error\"}"

abbrev lines : List String
lines =
    "event: x" ∷ "data: {\"type\":\"response.created\"}" ∷ ""
    ∷ "data:{\"type\":\"response.output_text.delta\"}" ∷ "data: [DONE]" ∷ []

abbrev upstream : ℕ → Fields → Reply
upstream (suc zero) body = replied 429 "slow down" [] false
upstream (suc (suc zero)) body = replied 200 "" (created ∷ failure ∷ []) false
upstream n body = replied 200 "" lines false

abbrev body : Fields
body = field "model" (str "gpt") end

abbrev first : State
first = start loads (str "ReadTimeout") upstream body

abbrev final : Turn
final = record (opened first) { sent = text created ∷ text delta ∷ []; flushed = true }

read : read_lines loads false lines (opened first) ≡ over final
unfolding read_lines
read = refl

read_lines-order_example : shown final ≡ shown (opened first) ++ map text (payloads lines)
read_lines-order_example =
    read_lines-order loads final refl false lines (opened first) (λ h. refl) read

relay-SpeaksOnce_example :
    SpeaksOnce loads (str "ReadTimeout") upstream (relay loads (str "ReadTimeout") upstream body)
relay-SpeaksOnce_example = relay-SpeaksOnce loads (str "ReadTimeout") upstream body

goes_through : (relay loads (str "ReadTimeout") upstream body).sent ≡ text created ∷ text delta ∷ []
unfolding relay inference_proxy.Text.lower
goes_through = refl

waits : (relay loads (str "ReadTimeout") upstream body).sleeps ≡ 3 ∷ 2 ∷ []
unfolding relay inference_proxy.Text.lower
waits = refl

abbrev busy : Reply
busy = replied 503 "busy" [] false

abbrev for_a_while : ℕ → Fields → Reply
for_a_while zero b = busy
for_a_while (suc zero) b = busy
for_a_while (suc (suc zero)) b = busy
for_a_while n b = replied 200 "" lines false

busy-Refuses : Refuses loads busy
unfolding Refuses inference_proxy.Text.lower
busy-Refuses = (refl, refl, refl)

for_a_while-Refuses : (n : ℕ) → n < 3 → (b : Fields) → Refuses loads (for_a_while n b)
for_a_while-Refuses zero h b = busy-Refuses
for_a_while-Refuses (suc zero) h b = busy-Refuses
for_a_while-Refuses (suc (suc zero)) h b = busy-Refuses
for_a_while-Refuses (suc (suc (suc n))) h b = let none_left : ⊥ = omega arith in elim none_left [ ]

abbrev relayed : State
unfolding relay
relayed = relay loads (str "ReadTimeout") for_a_while body

relay-Delivered_example :
    (relayed.sent ≡ final.sent)
    × (relayed.captured_usage ≡ final.captured_usage)
    × (relayed.captured_error ≡ final.captured_error)
unfolding relayed
relay-Delivered_example =
    relay-Delivered loads (str "ReadTimeout") for_a_while 3 "" lines false body final read refl
      (omega arith) for_a_while-Refuses (λ b. refl) (omega arith)

-- ===== src/Overflow/Tests.antt =====
-- An overflow of app/proxy/overflow.py, relayed.
use inference_proxy.Prelude.{String, Option, none, some, ◌≡◌}
use inference_proxy.Json.{Value, obj}
use inference_proxy.Overflow.{overflow_message, overflow_body, prefixed}
use inference_proxy.Overflow.Relay.{overflow_message-overflow_body}

abbrev nothing : String → Option Value
nothing s = none

overflow_message-overflow_body_example :
    (overflow_message nothing (obj (overflow_body "prompt is too long: 9 tokens"))
      ≡ some (prefixed "prompt is too long: 9 tokens"))
    × (overflow_body (prefixed "prompt is too long: 9 tokens")
        ≡ overflow_body "prompt is too long: 9 tokens")
overflow_message-overflow_body_example =
    overflow_message-overflow_body nothing "prompt is too long: 9 tokens"

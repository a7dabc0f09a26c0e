-- ===== src/Upstream/Tests.antt =====
-- app/provider_limits.py and app/azure.py on concrete replies and bodies.
use inference_proxy.Prelude.{
  ℕ, ◌≤◌, String, true, Option, some, List, [], ◌∷◌, ◌≡◌, refl, value_at, eqb, if◌then◌else◌,
}
use inference_proxy.Prelude.Int.{ℤ, pos}
use inference_proxy.Json.{int, str, obj, Fields, end, field, list}
use inference_proxy.Upstream.Limits.{Number, Headers, snapshot}
use inference_proxy.Upstream.Latest.{Reply, observe, last_word, Shows, snapshot-observe}
use inference_proxy.Upstream.Retry.{
  Attempt, connect_failed, replied, unreachable, post_with_retries,
}
use inference_proxy.Upstream.Attempts.{Run, post_with_retries-Run, sum, total_sleep_le}
use inference_proxy.Upstream.Strip.{sanitize_stream_options, delivery}

abbrev half : String → Option Number
half raw = some (pos 1, 1)

abbrev same : Number → Number
same x = x

abbrev limit_headers : Headers
limit_headers = ("X-Codex-Primary-Used-Percent", "50") ∷ []

abbrev replies : List Reply
replies =
    (record { host = "a"; headers = limit_headers; at = pos 10 })
    ∷ (record { host = "a"; headers = []; at = pos 20 })
    ∷ []

snapshot-observe_example :
    Shows
      (pos 30)
      (last_word half same same "a" replies)
      (value_at "a" (snapshot (pos 30) (observe half same same replies [])))
snapshot-observe_example = snapshot-observe half same same (pos 30) "a" replies refl

abbrev upstream : ℕ → Attempt
upstream n =
    if eqb n 1 then connect_failed else if eqb n 2 then replied 429 [] true else replied 200 [] true

abbrev clock : ℕ → ℤ
clock n = pos n

post_with_retries-Run_example :
    Run half same same "a" clock upstream 4 1
      (record { store = []; sleeps = [] })
      (post_with_retries half same same "a" clock upstream [])
post_with_retries-Run_example = post_with_retries-Run half same same "a" clock upstream []

total_sleep_le_example :
    (sum (post_with_retries half same same "a" clock upstream []).1.sleeps ≤ 45)
    × ((post_with_retries half same same "a" clock upstream []).0 ≡ unreachable → ⊥)
total_sleep_le_example = total_sleep_le half same same "a" clock upstream []

abbrev body : Fields
body =
    field "input"
      (list (
        obj (field "type" (str "reasoning") end)
        ∷ obj (field "internal_chat_message_metadata_passthrough" (int (pos 1)) end)
        ∷ []))
      end

abbrev streamed : Fields
streamed =
    field "stream_options"
      (obj (
        field "include_usage" (int (pos 1))
          (field "reasoning_summary_delivery" (str "sequential_cutoff") end)))
      end

abbrev streamed_as : Fields
streamed_as = field "stream_options" (obj (field "include_usage" (int (pos 1)) end)) end

cut : sanitize_stream_options streamed ≡ some (streamed_as, delivery ∷ [])
unfolding sanitize_stream_options
cut = refl

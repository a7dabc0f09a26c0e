-- ===== src/Anthropic/Request/Thinking.antt =====
-- app/proxy/chat_to_anthropic.py: the thinking budget, fitted under the caller's own ceiling.
use inference_proxy.Prelude.{
  ℕ, ◌+◌, ◌^◌, String, Bool, true, false, Option, none, some, ◌==◌, if◌then◌else◌, max, or_else,
}
use inference_proxy.Prelude.Int.{ℤ, pos, ◌-ℤ◌, scale}
use inference_proxy.Text.{strip, lower}
use inference_proxy.Json.{
  Value, bool, int, float, str, obj, Fields, get, or_value, truthy, ratio, ltb_ratio,
}
use inference_proxy.Anthropic.Request.Result.{Result, ok, err, ◌>>=◌, crash}

abbrev pub default_max_tokens : ℕ
default_max_tokens = 8192

abbrev pub thinking_headroom : ℕ
thinking_headroom = 4096

abbrev pub min_thinking_budget : ℕ
min_thinking_budget = 1024

unfoldable pub budget_named : String → Option ℕ
budget_named effort =
    if effort == "minimal"
    then some 1024
    else if effort == "low"
    then some 4096
    else if effort == "medium"
    then some 8192
    else if effort == "high"
    then some 16384
    else if effort == "xhigh"
    then some 32768
    else none

-- `_thinking_for`: the budget of an effort
unfoldable pub thinking_for : Value → Option ℕ
unfolding budget_named strip lower
thinking_for (str effort) = budget_named (lower (strip effort))
thinking_for _ = none

abbrev pub effort_in : Value → Option ℕ
effort_in (obj reasoning) = thinking_for (get "effort" reasoning)
effort_in _ = none

unfoldable pub requested_budget : Fields → Option ℕ
unfolding get thinking_for
requested_budget request =
    or_else (thinking_for (get "reasoning_effort" request)) (effort_in (get "reasoning" request))

-- What is sent: `max_tokens`, and the budget if thinking is enabled.
pub record Plan : Type 0 where
  pub max_tokens : Value
  pub budget : Option Value

-- the difference of a number and the headroom
abbrev pub less_headroom : Value → Result Value
less_headroom (bool true) = ok (int (pos 1 -ℤ pos thinking_headroom))
less_headroom (bool false) = ok (int (pos 0 -ℤ pos thinking_headroom))
less_headroom (int z) = ok (int (z -ℤ pos thinking_headroom))
less_headroom (float m k) = ok (float (m -ℤ scale (pos thinking_headroom) (2 ^ k)) k)
less_headroom _ = err crash

abbrev pub below : Option (ℤ × ℕ) → ℕ → Bool
below none n = false
below (some a) n = ltb_ratio a (pos n, 0)

-- `min(budget, room)`, or nothing under Anthropic's floor
abbrev pub fitted : ℕ → Value → Option Value
fitted budget room =
    let least = if below (ratio room) budget then room else int (pos budget) in
    if below (ratio least) min_thinking_budget then none else some least

-- `ceiling` is what the caller named, a false value if nothing
unfoldable pub plan_thinking : Value → Option ℕ → Result Plan
unfolding ◌-ℤ◌ scale
plan_thinking ceiling none =
    ok (record { max_tokens = or_value ceiling (int (pos default_max_tokens)); budget = none })
plan_thinking ceiling (some budget) =
    if truthy ceiling
    then (do
      room ← less_headroom ceiling
      ok (record { max_tokens = ceiling; budget = fitted budget room }))
    else ok (record {
      max_tokens = int (pos (max default_max_tokens (budget + thinking_headroom)));
      budget = some (int (pos budget));
    })

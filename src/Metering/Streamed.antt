-- ===== src/Metering/Streamed.antt =====
-- The row that a streamed Messages call leaves in the usage log (app/usage.py).
use inference_proxy.Prelude.{
  ℕ, String, Bool, true, Option, some, List, ◌≡◌, refl, all, ◌∙◌, ap, subst,
}
use inference_proxy.Prelude.Int.{ℤ}
use inference_proxy.Json.{Value, null, bool, int, float, str, arr, obj, Fields, get, lookup}
use inference_proxy.Anthropic.Stream.Run.{Ending, stream}
use inference_proxy.Anthropic.Stream.Terminator.{calm, events}
use inference_proxy.Anthropic.Stream.Outcome.{Told, is_served, done_iff}
use inference_proxy.Anthropic.Stream.HighWater.{held, highest, stream_usage}
use inference_proxy.Metering.{
  Tokens, UsageRow, inserted, stream_row, schedule, tokens_from_usage, tokens_with, row_with,
  anthropic_usage_to_azure_usage, status_for, cache_read, with_cached,
}

-- the columns hold these counts under the keys of the usage object
abbrev pub Counts : Tokens → (String → Option ℤ) → Type 0
Counts t count =
    (held t.input_tokens ≡ count "input_tokens")
    × (held t.output_tokens ≡ count "output_tokens")
    × (held t.cache_creation_input_tokens ≡ count "cache_creation_input_tokens")
    × (held t.cache_read_input_tokens ≡ count "cache_read_input_tokens")

cache_read_self :
    (usage : Fields) (v : Value) → cache_read (anthropic_usage_to_azure_usage usage) v ≡ some v
unfolding anthropic_usage_to_azure_usage get lookup
cache_read_self usage null = refl
cache_read_self usage (bool b) = refl
cache_read_self usage (int z) = refl
cache_read_self usage (float m k) = refl
cache_read_self usage (str t) = refl
cache_read_self usage (arr vs) = refl
cache_read_self usage (obj fs) = refl

-- the columns of a row that is made of Anthropic's counts
abbrev columns : Fields → Tokens
columns usage =
    with_cached (anthropic_usage_to_azure_usage usage) (get "cache_read_input_tokens" usage)

tokens_from_usage-columns :
    (usage : Fields)
    → tokens_from_usage (anthropic_usage_to_azure_usage usage) ≡ some (columns usage)
unfolding tokens_from_usage anthropic_usage_to_azure_usage
tokens_from_usage-columns usage =
    ap (tokens_with (anthropic_usage_to_azure_usage usage))
      (cache_read_self usage (get "cache_read_input_tokens" usage))

columns-Counts : (usage : Fields) → Counts (columns usage) (λ k. held (get k usage))
unfolding anthropic_usage_to_azure_usage
columns-Counts usage = (refl, refl, refl, refl)

served_status : (e : Ending) → Told true e → status_for e.error_type ≡ 200
served_status e (h, calm) = rw h refl

module _ (loads : String → Option Value) (model : String) (lines : List String) (broken : Bool)
    (client key : ℕ) where
  -- A streamed Messages call whose events are well formed and report no failure leaves one row,
  -- under the client and the key of the request, whether or not the connection held. Its token
  -- columns are the highest counts that the events reported, those of the cache included, and its
  -- status is 200 where the turn was served to its end.
  pub stream_row-inserted :
      all calm (events loads lines) ≡ true
      → (row : UsageRow) × (stream_row (some (client, key)) (stream loads model lines broken)
          ≡ inserted row)
        × (row.client_id ≡ client)
        × (row.key_id ≡ key)
        × Counts row.tokens (λ k. highest k (events loads lines))
        × (is_served loads model lines broken ≡ true → row.status_code ≡ 200)
  unfolding stream_row schedule
  stream_row-inserted h =
      let e = stream loads model lines broken in
      let (input, output, creation, read) = columns-Counts e.usage in
      (
        record {
          client_id = client;
          key_id = key;
          status_code = status_for e.error_type;
          error_type = e.error_type;
          tokens = columns e.usage;
        },
        ap (row_with (client, key) (status_for e.error_type) e.error_type)
            (tokens_from_usage-columns e.usage),
        refl,
        refl,
        (
          input ∙ stream_usage loads model lines broken "input_tokens" h,
          output ∙ stream_usage loads model lines broken "output_tokens" h,
          creation ∙ stream_usage loads model lines broken "cache_creation_input_tokens" h,
          read ∙ stream_usage loads model lines broken "cache_read_input_tokens" h,
        ),
        λ served.
            served_status e (subst (λ b. Told b e) served (done_iff loads model lines broken).1),
      )

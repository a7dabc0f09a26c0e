-- ===== src/Completions/Metered.antt =====
-- The usage row of a call of the chat route of app/proxy/chat_completions.py, whichever way it goes.
use inference_proxy.Prelude.{String, Bool, true, false, Option, none, some, refl, Map}
use inference_proxy.Json.{Value, truthy, str, Fields, end}
use inference_proxy.Anthropic.Request.Result.{
  Result, Refusal, ok, err, crash, no_image_source, no_image_data, no_image_url, no_text,
  nameless_tool, no_equivalent,
}
use inference_proxy.Anthropic.Request.Body.{transform_to_anthropic_messages}
use inference_proxy.Deployments.Target.{
  DeploymentTarget, upstream_url, build_upstream_headers, is_anthropic_messages,
  is_openai_responses, is_anthropic_oauth,
}
use inference_proxy.Messages.Headers.{anthropic_upstream_headers}
use inference_proxy.Responses.Body.{transform_to_responses_format}
use inference_proxy.Completions.Answers.{Principal, Answer, Upstream}
use inference_proxy.Completions.Rows.{
  IsMetered, if-IsMetered, post_native-IsMetered, stream_native-IsMetered,
}
use inference_proxy.Completions.Translated.{
  post_via_responses-IsMetered, stream_via_responses-IsMetered, post_via_anthropic-IsMetered,
  stream_via_anthropic-IsMetered,
}
use inference_proxy.Completions.Entry.{
  Sent, to_messages, as_dict, native_body, Posted, no_connection, timed_out, broke, answered,
  Setting, on_posted, untranslatable, on_translated, call, failed_row, messages_handler,
  responses_handler, native_handler, dispatch,
}

on_posted-IsMetered :
    (principal : Principal) (posted : Posted) (k : Upstream → Answer)
    → ((reply : Upstream) → IsMetered principal (k reply))
    → IsMetered principal (on_posted principal posted k)
unfolding IsMetered on_posted failed_row
on_posted-IsMetered principal no_connection k h = (502, some (str "connect_error"), end, refl, refl)
on_posted-IsMetered principal timed_out k h = (504, some (str "timeout"), end, refl, refl)
on_posted-IsMetered principal broke k h = tt
on_posted-IsMetered principal (answered reply) k h = h reply

module _ (s : Setting) (principal : Principal) where
  untranslatable-IsMetered :
      (name : String) (r : Refusal) → IsMetered principal (untranslatable s principal name r)
  unfolding IsMetered untranslatable failed_row
  untranslatable-IsMetered name r = (400, some (str "untranslatable_request"), end, refl, refl)

  on_translated-IsMetered :
      {A : Type 0} (name : String) (r : Result A) (k : A → Answer)
      → ((a : A) → IsMetered principal (k a))
      → IsMetered principal (on_translated s principal name r k)
  unfolding IsMetered on_translated
  on_translated-IsMetered name (ok a) k h = h a
  on_translated-IsMetered name (err crash) k h = tt
  on_translated-IsMetered name (err no_image_source) k h =
      untranslatable-IsMetered name no_image_source
  on_translated-IsMetered name (err no_image_data) k h = untranslatable-IsMetered name no_image_data
  on_translated-IsMetered name (err no_image_url) k h = untranslatable-IsMetered name no_image_url
  on_translated-IsMetered name (err (no_text v)) k h = untranslatable-IsMetered name (no_text v)
  on_translated-IsMetered name (err (nameless_tool v)) k h =
      untranslatable-IsMetered name (nameless_tool v)
  on_translated-IsMetered name (err (no_equivalent v)) k h =
      untranslatable-IsMetered name (no_equivalent v)

  call-IsMetered :
      (target : DeploymentTarget) (headers : Option (Map String)) (sent : Sent) (streams : Bool)
      (k : Upstream → Answer)
      → ((reply : Upstream) → IsMetered principal (k reply))
      → IsMetered principal (call s principal target headers sent streams k)
  unfolding IsMetered call
  call-IsMetered target none sent streams k h = tt
  call-IsMetered target (some headers) sent streams k h =
      on_posted-IsMetered principal (s.post (upstream_url target) headers sent streams) k h

  messages_handler-IsMetered :
      (target : DeploymentTarget) (streams : Bool) (reply : Upstream)
      → IsMetered principal (messages_handler s principal target streams reply)
  unfolding messages_handler
  messages_handler-IsMetered target true =
      stream_via_anthropic-IsMetered s.loads s.dumps s.render s.decimal s.fresh s.created
        target.name principal
  messages_handler-IsMetered target false =
      post_via_anthropic-IsMetered s.loads s.dumps s.render s.decimal s.fresh s.created target.name
        principal

  responses_handler-IsMetered :
      (target : DeploymentTarget) (streams : Bool) (reply : Upstream)
      → IsMetered principal (responses_handler s principal target streams reply)
  unfolding responses_handler
  responses_handler-IsMetered target true =
      stream_via_responses-IsMetered s.loads s.dumps s.render s.decimal s.fresh s.created
        target.name principal
  responses_handler-IsMetered target false =
      post_via_responses-IsMetered s.loads s.dumps s.render s.decimal s.fresh s.created target.name
        principal

  native_handler-IsMetered :
      (streams : Bool) (reply : Upstream)
      → IsMetered principal (native_handler s principal streams reply)
  unfolding native_handler
  native_handler-IsMetered true = stream_native-IsMetered s.loads s.decimal principal
  native_handler-IsMetered false = post_native-IsMetered s.loads s.decimal principal

  -- Whatever way a call goes upstream and however it ends, there is one usage row that fits the
  -- caller's answer, or none where an exception ends the call.
  pub dispatch-IsMetered :
      (target : DeploymentTarget) (body : Fields) (streaming : Value)
      → IsMetered principal (dispatch s principal target body streaming)
  unfolding dispatch
  dispatch-IsMetered target body streaming =
      if-IsMetered principal (is_anthropic_messages target.target_uri) _ _
        (on_translated-IsMetered target.name
          (transform_to_anthropic_messages s.dumps s.loads s.mint body streaming target.name) _
          (λ sent.
            call-IsMetered target (anthropic_upstream_headers s.claims target)
              (to_messages sent (is_anthropic_oauth target)) (truthy streaming) _
              (messages_handler-IsMetered target (truthy streaming))))
        (if-IsMetered principal (is_openai_responses target.target_uri) _ _
          (on_translated-IsMetered target.name
            (transform_to_responses_format s.dumps s.render body streaming target.name) _
            (λ sent.
              call-IsMetered target (build_upstream_headers s.claims target) (as_dict sent)
                (truthy streaming) _ (responses_handler-IsMetered target (truthy streaming))))
          (call-IsMetered target (build_upstream_headers s.claims target)
            (as_dict (native_body s body streaming target.name)) (truthy streaming) _
            (native_handler-IsMetered (truthy streaming))))

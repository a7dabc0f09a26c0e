-- ===== src/Deployments/Shapes.antt =====
-- The guard on the shape of an upstream URI, against the shapes that `wires_for` says a model can be
-- reached on (app/deployments.py).
use inference_proxy.Prelude.{String, true, false, ◌&&◌, not, none, some, ◌≡◌, any, arith, is_some}
use inference_proxy.Credentials.World.{has_text}
use inference_proxy.Credentials.Resolve.{text_or_empty}
use inference_proxy.Deployments.Registry.{
  Wire, anthropic_messages, openai_responses, chat_completions, systemone, Model,
}
use inference_proxy.Deployments.Wires.{
  same_wire, resolve_target_uri, is_served, is_attached, uri_serves, wires_for, all_wires,
}
use inference_proxy.Deployments.Resolve.{ErrorKind, target_for, reject_wrong_protocol}
use inference_proxy.Deployments.Offered.{any-keep}

abbrev pub uri_on : Model → Wire → String
uri_on row wire = text_or_empty (resolve_target_uri row (some wire))

refused-serves :
    (row : Model) (wire : Wire) (kind : ErrorKind) (secret : String)
    → any (same_wire wire) all_wires ≡ true
    → has_text (resolve_target_uri row (some wire)) ≡ true
    → is_some (reject_wrong_protocol kind (target_for row (uri_on row wire) secret) wire)
      ≡ not (uri_serves (resolve_target_uri row (some wire)) wire)
unfolding reject_wrong_protocol uri_serves
refused-serves row anthropic_messages kind secret known text = ground arith
refused-serves row openai_responses kind secret known text = ground arith
refused-serves row chat_completions kind secret known text = ground arith
refused-serves row systemone kind secret known text = cc

-- The shapes that a model with a URI of its own can be reached on, as `wires_for` says, are exactly
-- those that the guard of the route lets through: a shape is in `wires_for` if and only if the row has
-- a URI and the guard accepts the target that the URI gives. Which of them a harness is offered is
-- another matter.
pub own_uri_accepted :
    (row : Model) (wire : Wire) (kind : ErrorKind) (secret : String)
    → row.provider ≡ none
    → any (same_wire wire) all_wires ≡ true
    → any (same_wire wire) (wires_for row) ≡ (
        has_text (resolve_target_uri row (some wire))
        && not
            (is_some (reject_wrong_protocol kind (target_for row (uri_on row wire) secret) wire)))
unfolding wires_for
own_uri_accepted row wire kind secret own known =
    rw (any-keep wire (is_served row) all_wires, known, own)
      (ground (arith, refused-serves row wire kind secret known))

-- `wires_for` says of a model of a provider that it can be reached on a shape that the provider has a
-- path for even where the URI of that path is not one that the guard takes for the shape, and then the
-- guard refuses each request for it on that shape.
pub attached_uri_refused :
    (row : Model) (wire : Wire) (kind : ErrorKind) (secret : String)
    → is_attached row.provider ≡ true
    → any (same_wire wire) all_wires ≡ true
    → has_text (resolve_target_uri row (some wire)) ≡ true
    → uri_serves (resolve_target_uri row (some wire)) wire ≡ false
    → (any (same_wire wire) (wires_for row) ≡ true)
      × (is_some (reject_wrong_protocol kind (target_for row (uri_on row wire) secret) wire) ≡ true)
unfolding wires_for
attached_uri_refused row wire kind secret attached known text shape =
    ground
      (arith, any-keep wire (is_served row) all_wires, refused-serves row wire kind secret known)

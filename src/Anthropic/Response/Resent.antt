-- ===== src/Anthropic/Response/Resent.antt =====
-- A response of app/proxy/chat_to_anthropic.py in the next request of the caller, translated.
use mathlib.Core.List.{reverse, reverse_aux}
use inference_proxy.Prelude.{
  ℕ, suc, String, false, Option, List, [], ◌∷◌, ◌++◌, map, ◌≡◌, refl, sym, ◌∙◌, ap, subst, All, In,
  inl, inr, ◌⊎◌, Bool-cases,
}
use inference_proxy.Json.{
  Value, null, bool, int, float, str, arr, obj, Fields, get, lookup, is_empty_text,
}
use inference_proxy.Anthropic.Request.Result.{ok, bind-eq-ok, ok-injective}
use inference_proxy.Anthropic.Request.Content.{
  Block, thinking, text_of, content_blocks, tool_use_blocks, tool_result_block,
}
use inference_proxy.Anthropic.Request.Messages.{
  Role, user, assistant, Turn, Progress, Speaker, speaker, is_results, add_system, add_result,
  add_turn, add_message, add_value, add_messages, iterated,
}
use inference_proxy.Anthropic.Request.Body.{
  Body, blank, transform_to_anthropic_messages, transform-eq-ok,
}
use inference_proxy.Anthropic.Response.{
  Completion, transform_anthropic_to_completions, message_fields,
}
use inference_proxy.Anthropic.Response.Sorted.{thoughts, called}
use inference_proxy.Anthropic.Response.Replay.{Replays, use_of, blocks_replayed}

both_empty : (xs ys : List Block) → xs ++ ys ≡ [] → (xs ≡ []) × (ys ≡ [])
both_empty [] ys h = (refl, h)
both_empty (x ∷ xs) ys h = cc

map_empty : {A : Type 0} (f : A → Block) (xs : List A) → map f xs ≡ [] → xs ≡ []
map_empty f [] h = refl
map_empty f (x ∷ xs) h = cc

In-reverse_aux : (t : Turn) (ts us : List Turn) → In t ts ⊎ In t us → In t (reverse_aux ts us)
In-reverse_aux t [] us (inl h) = elim h [ ]
In-reverse_aux t [] us (inr h) = h
In-reverse_aux t (x ∷ xs) us (inl (inl e)) = In-reverse_aux t xs (x ∷ us) (inr (inl e))
In-reverse_aux t (x ∷ xs) us (inl (inr h)) = In-reverse_aux t xs (x ∷ us) (inl h)
In-reverse_aux t (x ∷ xs) us (inr h) = In-reverse_aux t xs (x ∷ us) (inr (inr h))

only_users_hold_results : (t : Turn) → t.role ≡ assistant → is_results t ≡ false
only_users_hold_results t h = rw h refl

module _ (t : Turn) (mine : t.role ≡ assistant) where
  In-add_result : (block : Block) (turns : List Turn) → In t turns → In t (add_result block turns)
  unfolding add_result
  In-add_result block [] h = elim h [ ]
  In-add_result block (last ∷ before) h = elim (Bool-cases (is_results last)) [
    | inr other ↦ rw other (inr h)
    | inl results ↦ elim h [
      | inl e ↦ cc (rw e at (only_users_hold_results t mine), results)
      | inr older ↦ rw results (inr older)
    ]
  ]

  In-add_turn :
      (role : Role) (bs : List Block) (turns : List Turn)
      → In t turns
      → In t (add_turn role bs turns)
  unfolding add_turn
  In-add_turn role [] turns h = h
  In-add_turn role (b ∷ bs) turns h = inr h

  module _ (dumps : Value → String) (loads : String → Option Value) (mint : ℕ → ℕ → String) where
    In-add_message :
        (s : Speaker) (i : ℕ) (message : Fields) (p q : Progress)
        → add_message dumps loads mint s i message p ≡ ok q
        → In t p.turns
        → In t q.turns
    unfolding add_message add_system
    In-add_message Speaker.system i message p q h held =
        let (text, e, h') = bind-eq-ok (text_of dumps (get "content" message)) _ h in
        subst (λ r. In t r.turns) (ok-injective h') (system_turns text p held)
      where
        system_turns :
            (text : String) (p : Progress) → In t p.turns → In t (add_system text p).turns
        system_turns text p held = elim (Bool-cases (is_empty_text text)) [
          | inl empty ↦ rw empty held
          | inr full ↦ rw full held
        ]
    In-add_message Speaker.tool i message p q h held =
        let (block, e, h') = bind-eq-ok (tool_result_block dumps message) _ h in
        subst (λ r. In t r.turns) (ok-injective h') (In-add_result block p.turns held)
    In-add_message Speaker.assistant i message p q h held =
        let (blocks, e, h') = bind-eq-ok (content_blocks dumps (get "content" message)) _ h in
        subst (λ r. In t r.turns) (ok-injective h') (In-add_turn Role.assistant _ p.turns held)
    In-add_message Speaker.other i message p q h held =
        let (blocks, e, h') = bind-eq-ok (content_blocks dumps (get "content" message)) _ h in
        subst (λ r. In t r.turns) (ok-injective h') (In-add_turn user blocks p.turns held)

    In-add_value :
        (i : ℕ) (v : Value) (p q : Progress)
        → add_value dumps loads mint i v p ≡ ok q
        → In t p.turns
        → In t q.turns
    In-add_value i (obj message) p q h held =
        In-add_message (speaker (get "role" message)) i message p q h held
    In-add_value i null p q h held = subst (λ r. In t r.turns) (ok-injective h) held
    In-add_value i (bool b) p q h held = subst (λ r. In t r.turns) (ok-injective h) held
    In-add_value i (int z) p q h held = subst (λ r. In t r.turns) (ok-injective h) held
    In-add_value i (float m k) p q h held = subst (λ r. In t r.turns) (ok-injective h) held
    In-add_value i (str s) p q h held = subst (λ r. In t r.turns) (ok-injective h) held
    In-add_value i (arr vs) p q h held = subst (λ r. In t r.turns) (ok-injective h) held

    -- a turn of the assistant's stays, whatever messages follow
    In-add_messages :
        (i : ℕ) (vs : List Value) (p q : Progress)
        → add_messages dumps loads mint i vs p ≡ ok q
        → In t p.turns
        → In t q.turns
    unfolding add_messages
    In-add_messages i [] p q h held = subst (λ r. In t r.turns) (ok-injective h) held
    In-add_messages i (v ∷ vs) p q h held =
        let (r, e, h') = bind-eq-ok (add_value dumps loads mint i v p) _ h in
        In-add_messages (suc i) vs r q h' (In-add_value i v p r e held)

module _ (dumps : Value → String) (loads : String → Option Value) (mint : ℕ → ℕ → String) where
  -- the step of the loop at one of the messages
  split_messages :
      (before : List Value) (v : Value) (after : List Value) (i : ℕ) (p q : Progress)
      → add_messages dumps loads mint i (before ++ v ∷ after) p ≡ ok q
      → (j : ℕ) × (r : Progress) × (r' : Progress) × (add_value dumps loads mint j v r ≡ ok r')
        × (add_messages dumps loads mint (suc j) after r' ≡ ok q)
  unfolding add_messages
  split_messages [] v after i p q h =
      let (r', e, h') = bind-eq-ok (add_value dumps loads mint i v p) _ h in (i, p, r', e, h')
  split_messages (u ∷ before) v after i p q h =
      let (r, e, h') = bind-eq-ok (add_value dumps loads mint i u p) _ h in
      split_messages before v after (suc i) r q h'

  -- a turn of the assistant's with the thinking, what the message says, and the calls
  abbrev pub Resends : Completion → List Value → List Turn → Type 0
  unfolding get content_blocks message_fields
  Resends c vs turns =
      (turn : Turn) × (blocks : List Block) × In turn turns
      × (turn.role ≡ assistant)
      × (content_blocks dumps (get "content" (message_fields c)) ≡ ok blocks)
      × (turn.content
          ≡ map thinking (thoughts vs) ++ blocks ++ map (use_of dumps loads mint) (called vs))

  speaker-message_fields :
      (c : Completion) → speaker (get "role" (message_fields c)) ≡ Speaker.assistant
  unfolding message_fields get lookup speaker
  speaker-message_fields c = refl

  abbrev Held : Completion → List Value → List Turn → Type 0
  Held c vs turns = ((thoughts vs ≡ []) × (called vs ≡ [])) ⊎ Resends c vs turns

  resent_turn :
      (c : Completion) (vs : List Value) (said all : List Block) (turns : List Turn)
      → content_blocks dumps (get "content" (message_fields c)) ≡ ok said
      → all ≡ map thinking (thoughts vs) ++ said ++ map (use_of dumps loads mint) (called vs)
      → Held c vs (add_turn Role.assistant all turns)
  unfolding add_turn Resends
  resent_turn c vs said [] turns e same =
      let (first, none_called) =
        both_empty (map thinking (thoughts vs) ++ said) (map (use_of dumps loads mint) (called vs))
          (sym same) in
      let (none_thought, none_said) = both_empty (map thinking (thoughts vs)) said first in
      inl (
        map_empty thinking (thoughts vs) none_thought,
        map_empty (use_of dumps loads mint) (called vs) none_called,
      )
  resent_turn c vs said (b ∷ bs) turns e same =
      inr (record { role = Role.assistant; content = b ∷ bs }, said, inl refl, refl, e, same)

  carried_over :
      (c : Completion) (vs : List Value) (turns later : List Turn)
      → ((t : Turn) → t.role ≡ assistant → In t turns → In t later)
      → Held c vs turns
      → Held c vs later
  unfolding Resends
  carried_over c vs turns later keeps (inl none_there) = inl none_there
  carried_over c vs turns later keeps (inr (t, blocks, held, mine, e, same)) =
      inr (t, blocks, keeps t mine held, mine, e, same)

  add_message-Held :
      (payload : Fields) (model : String) (vs : List Value) (c : Completion) (j : ℕ)
      (r r' : Progress)
      → iterated (get "content" payload) ≡ ok vs
      → transform_anthropic_to_completions dumps payload model ≡ ok c
      → All (Replays dumps loads mint) (called vs)
      → add_message dumps loads mint Speaker.assistant j (message_fields c) r ≡ ok r'
      → Held c vs r'.turns
  unfolding add_message
  add_message-Held payload model vs c j r r' listed made replays h =
      let (said, e, h') =
        bind-eq-ok (content_blocks dumps (get "content" (message_fields c))) _ h in
      let (thought, calls) =
        blocks_replayed dumps loads mint payload model vs c j listed made replays in
      subst (λ p. Held c vs p.turns) (ok-injective h')
        (resent_turn c vs said _ r.turns e (
          ap
            (λ bs. bs ++ said ++ tool_use_blocks loads mint j (get "tool_calls" (message_fields c)))
            thought
          ∙ ap (λ bs. map thinking (thoughts vs) ++ said ++ bs) calls))

  -- A response is handed back whole. In the translation of any later request that has the message of
  -- the completion among its messages there is a turn of the assistant's with the response's thinking
  -- blocks as they were, signatures included and in order, then what the message says, then the
  -- response's tool calls with their identifiers, names and inputs, unless the response has neither
  -- thinking nor calls; each call has an identifier, a name and an object as its input that JSON writes
  -- and reads back.
  pub response_replayed :
      (payload : Fields) (model : String) (vs : List Value) (c : Completion) (request : Fields)
      (streaming : Value) (later : String) (body : Body) (before after : List Value)
      → iterated (get "content" payload) ≡ ok vs
      → transform_anthropic_to_completions dumps payload model ≡ ok c
      → All (Replays dumps loads mint) (called vs)
      → iterated (get "messages" request) ≡ ok (before ++ obj (message_fields c) ∷ after)
      → transform_to_anthropic_messages dumps loads mint request streaming later ≡ ok body
      → ((thoughts vs ≡ []) × (called vs ≡ [])) ⊎ Resends c vs body.messages
  response_replayed payload model vs c request streaming later body before after listed made replays
        among h =
      let (messages, done, plan, tools, e₁, e₂, e₃, e₄, whole) =
        transform-eq-ok dumps loads mint request streaming later body h in
      let same = ok-injective (sym e₁ ∙ among) in
      let (j, r, r', here, rest) =
        split_messages before (obj (message_fields c)) after 0 blank done (rw same at e₂) in
      let here' = rw (speaker-message_fields c) at here in
      let held = add_message-Held payload model vs c j r r' listed made replays here' in
      rw whole (
        carried_over c vs r'.turns (reverse done.turns)
          (λ t mine at_r'.
            In-reverse_aux t done.turns []
              (inl (In-add_messages t mine dumps loads mint (suc j) after r' done rest at_r')))
          held)

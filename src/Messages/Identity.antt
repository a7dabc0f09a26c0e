-- ===== src/Messages/Identity.antt =====
-- What `apply_oauth_system_prompt` and the other changes to a body of app/proxy/anthropic.py keep.
use inference_proxy.Prelude.{
  String, true, false, List, [], ◌∷◌, ◌≡◌, refl, ap, subst, ◌∙◌, ◌==◌, if◌then◌else◌, Bool-cases,
  inl, inr, ◌⊎◌,
}
use inference_proxy.Json.{
  Value, null, bool, int, float, str, arr, obj, Fields, field, end, items, list, of_items, get, put,
}
use inference_proxy.Json.Laws.{get-put, is_text-same}
use inference_proxy.Messages.Body.{
  oauth_system_identity, text_block, blocks_of, declares_identity, apply_oauth_system_prompt,
}

abbrev pub system : Fields → List Value
unfolding get blocks_of
system body = blocks_of (get "system" body)

items-of_items : (vs : List Value) → items (of_items vs) ≡ vs
items-of_items [] = refl
items-of_items (v ∷ vs) = ap (λ rest. v ∷ rest) (items-of_items vs)

apply-cases :
    (body : Fields)
    → ((declares_identity (system body) ≡ true) × (apply_oauth_system_prompt body ≡ body))
      ⊎ ((declares_identity (system body) ≡ false)
          × (apply_oauth_system_prompt body
              ≡ put "system" (list (text_block oauth_system_identity ∷ system body)) body))
unfolding apply_oauth_system_prompt system
apply-cases body = elim (Bool-cases (declares_identity (blocks_of (get "system" body)))) [
  | inl there ↦ inl (there, rw there refl)
  | inr missing ↦ inr (missing, rw missing refl)
]

system-put :
    (blocks : List Value) (body : Fields) → system (put "system" (list blocks) body) ≡ blocks
unfolding system
system-put blocks body = rw (get-put "system" "system" (list blocks) body) (items-of_items blocks)

identity-declares :
    (blocks : List Value) → declares_identity (text_block oauth_system_identity ∷ blocks) ≡ true
unfolding declares_identity get
identity-declares blocks = refl

declares-applied :
    (body : Fields) → declares_identity (system (apply_oauth_system_prompt body)) ≡ true
declares-applied body = elim (apply-cases body) [
  | inl (there, same) ↦ rw same there
  | inr (missing, changed) ↦
      rw (changed, system-put (text_block oauth_system_identity ∷ system body) body)
        (identity-declares (system body))
]

-- A second time changes nothing.
apply_oauth_system_prompt_idempotent :
    (body : Fields)
    → apply_oauth_system_prompt (apply_oauth_system_prompt body) ≡ apply_oauth_system_prompt body
apply_oauth_system_prompt_idempotent body = elim (apply-cases (apply_oauth_system_prompt body)) [
  | inl (there, same) ↦ same
  | inr (missing, changed) ↦ cc (missing, declares-applied body)
]

-- the blocks that a caller's system prompt stands for: none, its text, its own, or what it is
abbrev pub callers : Value → List Value
callers null = []
callers (str s) = obj (field "type" (str "text") (field "text" (str s) end)) ∷ []
callers (arr vs) = items vs
callers v = v ∷ []

-- the first of the blocks is a dict whose text is the identity
abbrev pub IsDeclared : List Value → Type 0
unfolding get
IsDeclared (obj block ∷ blocks) = get "text" block ≡ str oauth_system_identity
IsDeclared _ = ⊥

blocks-callers : (v : Value) → blocks_of v ≡ callers v
unfolding blocks_of
blocks-callers null = refl
blocks-callers (str s) = refl
blocks-callers (arr vs) = refl
blocks-callers _ = refl

declares_identity-IsDeclared :
    (blocks : List Value) → declares_identity blocks ≡ true → IsDeclared blocks
unfolding declares_identity get IsDeclared
declares_identity-IsDeclared [] h = cc
declares_identity-IsDeclared (obj block ∷ blocks) h =
    is_text-same oauth_system_identity (get "text" block) h
declares_identity-IsDeclared (null ∷ blocks) h = cc
declares_identity-IsDeclared (bool b ∷ blocks) h = cc
declares_identity-IsDeclared (int z ∷ blocks) h = cc
declares_identity-IsDeclared (float m k ∷ blocks) h = cc
declares_identity-IsDeclared (str s ∷ blocks) h = cc
declares_identity-IsDeclared (arr vs ∷ blocks) h = cc

-- Either the first of the caller's system blocks is a dict whose text is the identity, and the body is
-- unchanged; or the system prompt is the identity's block and behind it the caller's blocks. The other
-- fields are the caller's.
pub identity_comes_first :
    (body : Fields)
    → (((apply_oauth_system_prompt body ≡ body) × IsDeclared (callers (get "system" body)))
        ⊎ (get "system" (apply_oauth_system_prompt body)
            ≡ list (text_block oauth_system_identity ∷ callers (get "system" body))))
      × ((name : String)
          → ("system" == name) ≡ false
          → get name (apply_oauth_system_prompt body) ≡ get name body)
unfolding system
identity_comes_first body = elim (apply-cases body) [
  | inl (there, same) ↦ (
    inl (
      same,
      subst IsDeclared (blocks-callers (get "system" body))
          (declares_identity-IsDeclared (system body) there),
    ),
    λ name other. ap (get name) same,
  )
  | inr (missing, changed) ↦ (
    inr (
        ap (get "system") changed
        ∙ get-put "system" "system" (list (text_block oauth_system_identity ∷ system body)) body
        ∙ ap (λ blocks. list (text_block oauth_system_identity ∷ blocks))
            (blocks-callers (get "system" body))),
    λ name other.
        ap (get name) changed
        ∙ get-put "system" name (list (text_block oauth_system_identity ∷ system body)) body
        ∙ ap
            (λ b.
              if b then list (text_block oauth_system_identity ∷ system body) else get name body)
            other,
  )
]

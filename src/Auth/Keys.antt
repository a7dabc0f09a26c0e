-- ===== src/Auth/Keys.antt =====
-- The key cache of app/auth.py against the tables that it is built from.
use inference_proxy.Prelude.{
  String, true, false, ◌&&◌, Option, none, some, List, [], ◌∷◌, map, ◌==◌, ◌≡◌, refl, if◌then◌else◌,
  any, is_some, eqb_iff, false, arith, eq_iff, eq_refl, In, inl, inr, ◌⊎◌, ◌↔◌, subst, sym, ap, ◌∙◌,
  Option-cases, value_at, value_at-set_at,
}
use inference_proxy.Json.{is_empty_text}
use inference_proxy.Credentials.Resolve.{text_or_empty}
use inference_proxy.Auth.{
  Client, ApiKey, Entry, Lookup, Cache, is_joined, entry, add_clients, add_keys, put_joined,
  refresh_key_cache, hash_of, raw_key_from_headers, validate_api_key, resolve_principal,
  resolve_requester_role, looked_up, identity, role,
}

-- a key that is not revoked, of a client that is not disabled, with this hash
pub record Issued (keys : List ApiKey) (clients : List Client) (h : String) : Type 0 where
  pub key : ApiKey
  pub client : Client
  pub of_keys : In key keys
  pub of_clients : In client clients
  pub of_client : key.client_id ≡ client.id
  pub enabled : client.disabled ≡ false
  pub live : key.revoked ≡ false
  pub hashed : key.key_hash ≡ h

is_joined-parts :
    (key : ApiKey) (client : Client)
    → is_joined key client ≡ true
    → (key.client_id ≡ client.id) × (client.disabled ≡ false) × (key.revoked ≡ false)
is_joined-parts key client h = ground (arith, eqb_iff key.client_id client.id)

issued-is_joined :
    (key : ApiKey) (client : Client)
    → key.client_id ≡ client.id
    → client.disabled ≡ false
    → key.revoked ≡ false
    → is_joined key client ≡ true
issued-is_joined key client same enabled live = ground (arith, eqb_iff key.client_id client.id)

value_at-put_joined :
    (j : String) (key : ApiKey) (c : Client) (l : Lookup)
    → value_at j (put_joined key c l)
      ≡ (if is_joined key c && (key.key_hash == j) then some (entry key c) else value_at j l)
value_at-put_joined j key c l = ground (arith, value_at-set_at key.key_hash j (entry key c) l)

add_clients-grows :
    (h : String) (key : ApiKey) (clients : List Client) (l : Lookup)
    → is_some (value_at h l) ≡ true
    → is_some (value_at h (add_clients key clients l)) ≡ true
unfolding add_clients
add_clients-grows h key [] l known = known
add_clients-grows h key (c ∷ cs) l known =
    add_clients-grows h key cs (put_joined key c l) (ground (arith, value_at-put_joined h key c l))

add_keys-grows :
    (h : String) (keys : List ApiKey) (clients : List Client) (l : Lookup)
    → is_some (value_at h l) ≡ true
    → is_some (value_at h (add_keys keys clients l)) ≡ true
unfolding add_keys
add_keys-grows h [] clients l known = known
add_keys-grows h (key ∷ keys) clients l known =
    add_keys-grows h keys clients (add_clients key clients l)
      (add_clients-grows h key clients l known)

add_clients-adds :
    (key : ApiKey) (client : Client) (clients : List Client) (l : Lookup)
    → In client clients
    → is_joined key client ≡ true
    → is_some (value_at key.key_hash (add_clients key clients l)) ≡ true
unfolding add_clients
add_clients-adds key client [] l i joined = elim i [ ]
add_clients-adds key client (c ∷ cs) l (inl e) joined =
    add_clients-grows key.key_hash key cs (put_joined key c l)
      (rw (value_at-put_joined key.key_hash key c l, sym e, joined, eq_refl key.key_hash) refl)
add_clients-adds key client (c ∷ cs) l (inr i) joined =
    add_clients-adds key client cs (put_joined key c l) i joined

add_keys-adds :
    (key : ApiKey) (keys : List ApiKey) (client : Client) (clients : List Client) (l : Lookup)
    → In key keys
    → In client clients
    → is_joined key client ≡ true
    → is_some (value_at key.key_hash (add_keys keys clients l)) ≡ true
unfolding add_keys
add_keys-adds key [] client clients l i m joined = elim i [ ]
add_keys-adds key (k ∷ ks) client clients l (inl e) m joined =
    add_keys-grows key.key_hash ks clients (add_clients k clients l) (
      subst (λ k. is_some (value_at key.key_hash (add_clients k clients l)) ≡ true) e
        (add_clients-adds key client clients l m joined))
add_keys-adds key (k ∷ ks) client clients l (inr i) m joined =
    add_keys-adds key ks client clients (add_clients k clients l) i m joined

abbrev FromClients : ApiKey → List Client → String → Entry → Type 0
FromClients key clients h e =
    (c : Client) × In c clients × (is_joined key c ≡ true) × (key.key_hash ≡ h) × (e ≡ entry key c)

put_joined-from :
    (key : ApiKey) (c : Client) (l : Lookup) (h : String) (e : Entry)
    → value_at h (put_joined key c l) ≡ some e
    → (value_at h l ≡ some e) ⊎ ((is_joined key c ≡ true) × (key.key_hash ≡ h) × (e ≡ entry key c))
put_joined-from key c l h e found =
    ground (arith, value_at-put_joined h key c l, eq_iff key.key_hash h)

add_clients-from :
    (key : ApiKey) (clients : List Client) (l : Lookup) (h : String) (e : Entry)
    → value_at h (add_clients key clients l) ≡ some e
    → (value_at h l ≡ some e) ⊎ FromClients key clients h e
unfolding add_clients
add_clients-from key [] l h e found = inl found
add_clients-from key (c ∷ cs) l h e found =
    elim (add_clients-from key cs (put_joined key c l) h e found) [
      | inl at ↦ elim (put_joined-from key c l h e at) [
        | inl old ↦ inl old
        | inr (joined, hashed, made) ↦ inr (c, inl refl, joined, hashed, made)
      ]
      | inr (d, i, joined, hashed, made) ↦ inr (d, inr i, joined, hashed, made)
    ]

-- the row that an entry under a hash was made of
abbrev pub Origin : List ApiKey → List Client → String → Entry → Type 0
Origin keys clients h e = (r : Issued keys clients h) × (e ≡ entry r.key r.client)

later_key :
    (k : ApiKey) (keys : List ApiKey) (clients : List Client) (h : String) (e : Entry)
    → Origin keys clients h e
    → Origin (k ∷ keys) clients h e
later_key k keys clients h e (r, made) = (
  record {
    key = r.key;
    client = r.client;
    of_keys = inr r.of_keys;
    of_clients = r.of_clients;
    of_client = r.of_client;
    enabled = r.enabled;
    live = r.live;
    hashed = r.hashed;
  },
  made,
)

add_keys-from :
    (keys : List ApiKey) (clients : List Client) (l : Lookup) (h : String) (e : Entry)
    → value_at h (add_keys keys clients l) ≡ some e
    → (value_at h l ≡ some e) ⊎ Origin keys clients h e
unfolding add_keys
add_keys-from [] clients l h e found = inl found
add_keys-from (k ∷ ks) clients l h e found =
    elim (add_keys-from ks clients (add_clients k clients l) h e found) [
      | inl at ↦ elim (add_clients-from k clients l h e at) [
        | inl old ↦ inl old
        | inr (c, i, joined, hashed, made) ↦
            let (same, enabled, live) = is_joined-parts k c joined in
            inr (
              record {
                key = k;
                client = c;
                of_keys = inl refl;
                of_clients = i;
                of_client = same;
                enabled = enabled;
                live = live;
                hashed = hashed;
              },
              made,
            )
      ]
      | inr origin ↦ inr (later_key k ks clients h e origin)
    ]

-- the two globals name the same hashes
any-hashes : (h : String) (l : Lookup) → any (λ j. j == h) (map hash_of l) ≡ is_some (value_at h l)
unfolding value_at
any-hashes h [] = refl
any-hashes h ((k, e) ∷ l) = ground (arith, any-hashes h l)

entry-issued :
    (keys : List ApiKey) (clients : List Client) (h : String) (e : Entry)
    → value_at h (add_keys keys clients []) ≡ some e
    → Origin keys clients h e
unfolding value_at
entry-issued keys clients h e found = elim (add_keys-from keys clients [] h e found) [
  | inl bad ↦ cc
  | inr origin ↦ origin
]

is_none : (o : Option Entry) → is_some o ≡ false → o ≡ none
is_none o h = ground arith

module _ (sha256 : String → String) where
  abbrev pub Presents : List ApiKey → List Client → Option String → Option String → Type 0
  Presents keys clients authorization api_key_header =
      (raw : String) × (raw_key_from_headers authorization api_key_header ≡ some raw)
      × (is_empty_text raw ≡ false)
      × Issued keys clients (sha256 raw)

  looked_up-some :
      (cache : Cache) (raw : Option String) (e : Entry)
      → looked_up sha256 cache raw ≡ some e
      → (r : String) × (raw ≡ some r)
        × (is_empty_text r ≡ false)
        × (value_at (sha256 r) cache.key_lookup ≡ some e)
  looked_up-some cache none e found = cc
  looked_up-some cache (some r) e found = (r, refl, ground arith, ground arith)

  has_hash-looked_up :
      (keys : List ApiKey) (clients : List Client) (authorization api_key_header : Option String)
      → validate_api_key sha256 (refresh_key_cache keys clients) authorization api_key_header
        ≡ is_some (
            looked_up sha256
              (refresh_key_cache keys clients)
              (raw_key_from_headers authorization api_key_header))
  unfolding validate_api_key refresh_key_cache
  has_hash-looked_up keys clients authorization api_key_header =
      rw
        (any-hashes (sha256 (text_or_empty (raw_key_from_headers authorization api_key_header)))
          (add_keys keys clients []))
        (ground arith)

  entry-Presents :
      (keys : List ApiKey) (clients : List Client) (authorization api_key_header : Option String)
      (e : Entry)
      → looked_up sha256
          (refresh_key_cache keys clients)
          (raw_key_from_headers authorization api_key_header)
        ≡ some e
      → (p : Presents keys clients authorization api_key_header) × (e ≡ entry p.3.key p.3.client)
  unfolding refresh_key_cache
  entry-Presents keys clients authorization api_key_header e found =
      let (r, same, text, at) =
        looked_up-some (refresh_key_cache keys clients)
          (raw_key_from_headers authorization api_key_header) e found in
      let (issued, made) = entry-issued keys clients (sha256 r) e at in
      ((r, same, text, issued), made)

  accepted :
      (keys : List ApiKey) (clients : List Client) (authorization api_key_header : Option String)
      → Presents keys clients authorization api_key_header
      → validate_api_key sha256 (refresh_key_cache keys clients) authorization api_key_header ≡ true
  unfolding validate_api_key refresh_key_cache
  accepted keys clients authorization api_key_header (raw, same, text, r) =
      rw (same, any-hashes (sha256 raw) (add_keys keys clients []), text, sym r.hashed)
        (add_keys-adds r.key keys r.client clients [] r.of_keys r.of_clients
          (issued-is_joined r.key r.client r.of_client r.enabled r.live))

  row_of :
      (keys : List ApiKey) (clients : List Client) (authorization api_key_header : Option String)
      → validate_api_key sha256 (refresh_key_cache keys clients) authorization api_key_header ≡ true
      → (e : Entry) × (looked_up sha256
            (refresh_key_cache keys clients)
            (raw_key_from_headers authorization api_key_header)
          ≡ some e)
        × ((p : Presents keys clients authorization api_key_header) × (e
              ≡ entry p.3.key p.3.client))
  row_of keys clients authorization api_key_header valid =
      elim (Option-cases (
        looked_up sha256 (refresh_key_cache keys clients)
          (raw_key_from_headers authorization api_key_header))) [
            | inl missing ↦
                ground (arith, has_hash-looked_up keys clients authorization api_key_header)
            | inr (e, found) ↦
                (e, found, entry-Presents keys clients authorization api_key_header e found)
          ]

  -- A request passes the key check if and only if one of its headers presents a credential that is
  -- not empty and is the key of a row that is not revoked, of a client that is not disabled, in the
  -- tables as they were at the last refresh of the cache.
  pub valid_iff_issued :
      (keys : List ApiKey) (clients : List Client) (authorization api_key_header : Option String)
      → (validate_api_key sha256 (refresh_key_cache keys clients) authorization api_key_header
          ≡ true)
        ↔ Presents keys clients authorization api_key_header
  valid_iff_issued keys clients authorization api_key_header = (
    λ valid. (row_of keys clients authorization api_key_header valid).2.0,
    accepted keys clients authorization api_key_header,
  )

  abbrev pub IdentityOf :
      (keys : List ApiKey) (clients : List Client) (authorization api_key_header : Option String)
      → Presents keys clients authorization api_key_header
      → Type 0
  IdentityOf keys clients authorization api_key_header (raw, same, text, row) =
      (resolve_principal sha256 (refresh_key_cache keys clients) authorization api_key_header
        ≡ some (row.key.client_id, row.key.id))
      × (resolve_requester_role sha256 (refresh_key_cache keys clients) authorization api_key_header
          ≡ some (if row.client.privileged then "admin" else "client"))

  -- The client and the key that a request is counted under and the role that opens the admin-only
  -- models all come from one row of an issued key that the request presents, the role being that of
  -- an admin exactly where its client is privileged; and a request that fails the key check has
  -- neither a principal nor a role.
  pub identity_issued :
      (keys : List ApiKey) (clients : List Client) (authorization api_key_header : Option String)
      → (validate_api_key sha256 (refresh_key_cache keys clients) authorization api_key_header
            ≡ true
          → (p : Presents keys clients authorization api_key_header) × IdentityOf keys clients
              authorization api_key_header p)
        × (validate_api_key sha256 (refresh_key_cache keys clients) authorization api_key_header
              ≡ false
            → (resolve_principal sha256
                  (refresh_key_cache keys clients)
                  authorization
                  api_key_header
                ≡ none)
              × (resolve_requester_role sha256
                    (refresh_key_cache keys clients)
                    authorization
                    api_key_header
                  ≡ none))
  unfolding resolve_principal resolve_requester_role
  identity_issued keys clients authorization api_key_header = (
    λ valid.
        let (e, found, (p, made)) = row_of keys clients authorization api_key_header valid in
        (p, (ap identity (found ∙ ap some made), ap role (found ∙ ap some made))),
    λ invalid.
        let missing =
          is_none
            (looked_up sha256 (refresh_key_cache keys clients)
              (raw_key_from_headers authorization api_key_header))
            (sym (has_hash-looked_up keys clients authorization api_key_header) ∙ invalid) in
        (ap identity missing, ap role missing),
  )

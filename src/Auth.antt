-- ===== src/Auth.antt =====
-- app/auth.py: the cache of issued keys, what a request presents, and who it is. `sha256` is the
-- digest of a key, as text. A row of the tables `keys` and `clients` keeps the columns that are read.
pub mod Keys
mod Tests
use Prim.Native.Char.{code}
use Prim.Native.String
use inference_proxy.Prelude.{
  ℕ, String, Bool, true, false, ◌&&◌, ◌||◌, not, Option, none, some, List, [], ◌∷◌, ◌++◌, map, ◌==◌,
  if◌then◌else◌, any, first, eqb, ltb, length, Map, value_at, set_at,
}
use inference_proxy.Text.{partition, lower}
use inference_proxy.Json.{is_empty_text}
use inference_proxy.Credentials.World.{has_text}
use inference_proxy.Credentials.Resolve.{text_or_empty}

pub record Client : Type 0 where
  pub id : ℕ
  pub disabled : Bool
  pub privileged : Bool

pub record ApiKey : Type 0 where
  pub id : ℕ
  pub client_id : ℕ
  pub key_hash : String
  pub revoked : Bool

-- a value of the cache: the client, the key, and whether the client is privileged
pub record Entry : Type 0 where
  pub client_id : ℕ
  pub key_id : ℕ
  pub privileged : Bool

abbrev pub Lookup : Type 0
Lookup = Map Entry

-- the two module globals
pub record Cache : Type 0 where
  pub key_hashes : List String
  pub key_lookup : Lookup

abbrev pub no_keys : Cache
no_keys = record { key_hashes = []; key_lookup = [] }

abbrev pub is_joined : ApiKey → Client → Bool
is_joined key client = eqb key.client_id client.id && not client.disabled && not key.revoked

abbrev pub entry : ApiKey → Client → Entry
entry key client = record {
  client_id = key.client_id;
  key_id = key.id;
  privileged = client.privileged;
}

abbrev pub put_joined : ApiKey → Client → Lookup → Lookup
put_joined key client lookup =
    if is_joined key client then set_at key.key_hash (entry key client) lookup else lookup

-- the rows that one key makes with the clients
unfoldable pub add_clients : ApiKey → List Client → Lookup → Lookup
unfolding set_at
add_clients key [] lookup = lookup
add_clients key (client ∷ clients) lookup = add_clients key clients (put_joined key client lookup)

unfoldable pub add_keys : List ApiKey → List Client → Lookup → Lookup
unfolding add_clients
add_keys [] clients lookup = lookup
add_keys (key ∷ keys) clients lookup = add_keys keys clients (add_clients key clients lookup)

abbrev pub hash_of : String × Entry → String
hash_of (h, e) = h

unfoldable pub refresh_key_cache : List ApiKey → List Client → Cache
unfolding add_keys
refresh_key_cache keys clients = record {
  key_hashes = map hash_of (add_keys keys clients []);
  key_lookup = add_keys keys clients [];
}

unfoldable pub proxy_key_count : Cache → ℕ
proxy_key_count cache = length cache.key_hashes

abbrev bearer : Option (String × String) → Option String
bearer none = none
bearer (some (scheme, token)) = if lower scheme == "bearer" then some token else none

-- the api-key header first, then a bearer token
unfoldable pub raw_key_from_headers : Option String → Option String → Option String
unfolding partition lower
raw_key_from_headers authorization api_key_header =
    if has_text api_key_header
    then api_key_header
    else if has_text authorization
    then bearer (partition b' ' (text_or_empty authorization))
    else none

abbrev pub identity : Option Entry → Option (ℕ × ℕ)
identity none = none
identity (some e) = some (e.client_id, e.key_id)

abbrev pub role : Option Entry → Option String
role none = none
role (some e) = some (if e.privileged then "admin" else "client")

module _ (sha256 : String → String) where
  abbrev has_hash : Cache → Option String → Bool
  has_hash cache raw = has_text raw && any (λ h. h == sha256 (text_or_empty raw)) cache.key_hashes

  abbrev pub looked_up : Cache → Option String → Option Entry
  looked_up cache raw =
      if has_text raw then value_at (sha256 (text_or_empty raw)) cache.key_lookup else none

  unfoldable pub validate_api_key : Cache → Option String → Option String → Bool
  unfolding raw_key_from_headers
  validate_api_key cache authorization api_key_header =
      has_hash cache (raw_key_from_headers authorization api_key_header)

  unfoldable pub resolve_principal : Cache → Option String → Option String → Option (ℕ × ℕ)
  unfolding raw_key_from_headers value_at
  resolve_principal cache authorization api_key_header =
      identity (looked_up cache (raw_key_from_headers authorization api_key_header))

  unfoldable pub resolve_requester_role : Cache → Option String → Option String → Option String
  unfolding raw_key_from_headers value_at
  resolve_requester_role cache authorization api_key_header =
      role (looked_up cache (raw_key_from_headers authorization api_key_header))

is_ascii : String → Bool
is_ascii String.[] = true
is_ascii (String.◌∷◌ c s) = ltb (code c) 128 && is_ascii s

-- `hmac.compare_digest` of two texts: `none` is its `TypeError` on a text that is not ASCII.
abbrev compare_digest : String → String → Option Bool
compare_digest a b = if is_ascii a && is_ascii b then some (a == b) else none

abbrev both : Option Bool → Option Bool → Option Bool
both (some a) (some b) = some (a && b)
both _ _ = none

-- The first two arguments are the configured name and password.
unfoldable pub verify_admin_credentials :
    Option String → Option String → String → String → Option Bool
unfolding is_ascii
verify_admin_credentials admin_username admin_password username password =
    if has_text admin_username && has_text admin_password
    then both (compare_digest username (text_or_empty admin_username))
        (compare_digest password (text_or_empty admin_password))
    else some false

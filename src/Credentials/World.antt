-- ===== src/Credentials/World.antt =====
-- app/timeutil.py, and the state that app/credentials.py reads and writes.
use inference_proxy.Prelude.{
  ℕ, String, Bool, false, ◌&&◌, not, Option, none, some, List, eqb, if◌then◌else◌,
}
use inference_proxy.Prelude.Int.{ℤ, pos, ◌-ℤ◌, ltb_ℤ}
use inference_proxy.Json.{Value, is_empty_text}

-- A datetime in microseconds: the wall clock, and the offset of an aware one.
pub data Timestamp : Type 0 where
  naive : ℤ → Timestamp
  aware : ℤ → ℤ → Timestamp

-- `as_utc`: the instant, with a naive value read as UTC
unfoldable pub as_utc : Timestamp → ℤ
as_utc (naive wall) = wall
as_utc (aware wall offset) = wall -ℤ offset

pub record Credential : Type 0 where
  pub id : ℕ
  pub name : String
  pub kind : String
  pub secret : Option String
  pub source_path : Option String
  pub access_token : Option String
  pub expires_at : Option Timestamp
  pub refreshed_at : Option Timestamp

-- What `_read_json` finds at a path.
pub data File : Type 0 where
  missing unreadable : File
  json : Value → File

pub record World : Type 0 where
  pub now : ℤ
  pub rows : ℕ → Credential
  pub files : String → File
  -- the refresh tokens posted to a token endpoint, latest first
  pub posted : List String
  -- whether the disk takes a file and the database a commit
  pub writes : Bool
  pub commits : Bool

-- `CredentialError`, a constructor for each place that raises it, and any other exception
pub data CredentialError : Type 0 where
  no_credential no_access_token crash : CredentialError
  no_secret no_source unknown_kind no_file file_unreadable no_tokens : String → CredentialError
  refresh_failed : ℕ → CredentialError

pub data Result (A : Type 0) : Type 0 where
  ok : A → Result A
  err : CredentialError → Result A

abbrev pub Exec : Type 0 → Type 0
Exec A = World → Result A × World

abbrev pub continue : {A B : Type 0} → Result A → (A → Exec B) → Exec B
continue (ok a) f w = f a w
continue (err e) f w = (err e, w)

infixl 5 ◌>>=◌ ◌>>◌
abbrev pub ◌>>=◌ : {A B : Type 0} → Exec A → (A → Exec B) → Exec B
◌>>=◌ m f w = continue (m w).0 f (m w).1

abbrev pub ◌>>◌ : {A B : Type 0} → Exec A → Exec B → Exec B
m >> n = m >>= λ _. n

abbrev pub pure : {A : Type 0} → A → Exec A
pure a w = (ok a, w)

abbrev pub raise : {A : Type 0} → CredentialError → Exec A
raise e w = (err e, w)

abbrev pub gets : {A : Type 0} → (World → A) → Exec A
gets f w = (ok (f w), w)

-- `REFRESH_SKEW_SECONDS`, in microseconds
abbrev pub refresh_skew : ℤ
refresh_skew = pos 300000000

abbrev pub has_text : Option String → Bool
has_text none = false
has_text (some s) = not (is_empty_text s)

-- an expiry that lies more than the skew ahead
unfoldable pub outlasts : ℤ → Option Timestamp → Bool
unfolding as_utc ◌-ℤ◌
outlasts now none = false
outlasts now (some t) = ltb_ℤ now (as_utc t -ℤ refresh_skew)

unfoldable pub is_fresh : ℤ → Credential → Bool
is_fresh now cred = has_text cred.access_token && outlasts now cred.expires_at

-- `session.commit` of one row
abbrev pub update : (ℕ → Credential) → ℕ → Credential → ℕ → Credential
update rows i cred j = if eqb i j then cred else rows j

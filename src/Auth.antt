-- ===== src/Auth.antt =====
-- app/auth.py: the session tokens of the administrator. A text is the list of its code points. HMAC
-- and JSON are arguments, `Codec`. Passwords and the routes are left out.
use Prim.Native.Nat.{◌+◌, ◌-◌, ◌%◌, ◌*◌}
use auto_coin_bot.Common.{
  ℕ, Bool, true, false, not, ◌&&◌, Option, none, some, List, [], ◌∷◌, ◌++◌, if◌then◌else◌, ltb, leb,
  ◌==◌, length, any,
}
pub mod Base64
mod Unpadded
mod Tokens
mod Tests
use auto_coin_bot.Auth.Base64.{urlsafe_b64encode, urlsafe_b64decode}

abbrev pub Text : Type 0
Text = List ℕ

abbrev pub text_eq : Text → Text → Bool
text_eq [] [] = true
text_eq [] (d ∷ t) = false
text_eq (c ∷ s) [] = false
text_eq (c ∷ s) (d ∷ t) = (c == d) && text_eq s t

abbrev pub session_ttl_seconds : ℕ
session_ttl_seconds = 60 * 60 * 12

pub record AuthConfig : Type 0 where
  pub username : Text
  pub session_secret : Text
  pub required : Bool
  pub configured : Bool

pub record Payload : Type 0 where
  pub sub : Text
  pub iat : ℕ
  pub exp : ℕ
  pub nonce : Text

-- What is read of a payload: a missing time is 0, a missing text is empty.
pub record Claims : Type 0 where
  pub sub : Text
  pub exp : ℕ

pub record Codec : Type 0 where
  pub hmac_sha256 : Text → Text → List ℕ  -- of a key and a message
  pub dumps : Payload → List ℕ  -- the bytes of the JSON text
  pub loads : List ℕ → Option Claims  -- none if it raises a ValueError

-- What a check of a token gives. A text that is not ASCII raises.
pub data Session : Type 0 where
  raised nobody : Session
  user : Text → Session

-- What a route's guard does: nothing, or an HTTP error.
pub data Guard : Type 0 where
  passed service_unavailable unauthorized failed : Guard

-- `rstrip(b"=")`
abbrev keep_unless : Text → ℕ → Text
keep_unless [] c = if c == b'=' then [] else c ∷ []
keep_unless (d ∷ t) c = c ∷ d ∷ t

unfoldable pub rstrip : Text → Text
rstrip [] = []
rstrip (c ∷ s) = keep_unless (rstrip s) c

unfoldable pub b64url : List ℕ → Text
b64url bytes = rstrip (urlsafe_b64encode bytes)

abbrev pub repeat : ℕ → ℕ → Text
repeat Prim.Native.Nat.zero c = []
repeat (Prim.Native.Nat.suc n) c = c ∷ repeat n c

unfoldable pub b64url_decode : Text → Option (List ℕ)
b64url_decode value = urlsafe_b64decode (value ++ repeat ((4 - length value % 4) % 4) b'=')

unfoldable pub sign : Codec → Text → Text → Text
sign codec body secret = b64url (codec.hmac_sha256 secret body)

-- `create_session_token`, where the secret is set.
unfoldable pub create_session_token : Codec → AuthConfig → ℕ → Text → Text → Text
create_session_token codec config now nonce username =
    let payload : Payload = record {
      sub = username;
      iat = now;
      exp = now + session_ttl_seconds;
      nonce = nonce;
    } in
    let body = b64url (codec.dumps payload) in body ++ b'.' ∷ sign codec body config.session_secret

-- `token.rsplit(".", 1)`, if there is a dot.
abbrev rsplit_at : ℕ → Text → Option (Text × Text) → Option (Text × Text)
rsplit_at c s (some (body, signature)) = some (c ∷ body, signature)
rsplit_at c s none = if c == b'.' then some ([], s) else none

unfoldable pub rsplit : Text → Option (Text × Text)
rsplit [] = none
rsplit (c ∷ s) = rsplit_at c s (rsplit s)

abbrev pub is_ascii : Text → Bool
is_ascii s = not (any (λ c. leb 128 c) s)

abbrev accept_claims : AuthConfig → ℕ → Option Claims → Session
accept_claims config now none = nobody
accept_claims config now (some claims) =
    if ltb claims.exp now
    then nobody
    else if text_eq claims.sub config.username
    then user claims.sub
    else nobody

abbrev load_bytes : Codec → Option (List ℕ) → Option Claims
load_bytes codec none = none
load_bytes codec (some bytes) = codec.loads bytes

abbrev verify_parts : Codec → AuthConfig → ℕ → Option (Text × Text) → Session
verify_parts codec config now none = nobody
verify_parts codec config now (some (body, signature)) =
    if not (is_ascii body && is_ascii signature)
    then raised
    else if text_eq (sign codec body config.session_secret) signature
    then accept_claims config now (load_bytes codec (b64url_decode body))
    else nobody

abbrev is_unset : Text → Bool
is_unset [] = true
is_unset (c ∷ s) = false

unfoldable pub verify_session_token : Codec → AuthConfig → ℕ → Text → Session
verify_session_token codec config now token =
    if is_unset config.session_secret then nobody else verify_parts codec config now (rsplit token)

-- Of the token in the cookie, if there is one.
abbrev get_session_user : Codec → AuthConfig → ℕ → Option Text → Session
get_session_user codec config now none = nobody
get_session_user codec config now (some token) =
    if is_unset token then nobody else verify_session_token codec config now token

abbrev guard_of : Session → Guard
guard_of raised = failed
guard_of nobody = unauthorized
guard_of (user username) = passed

unfoldable pub require_admin_session : Codec → AuthConfig → ℕ → Option Text → Guard
require_admin_session codec config now cookie =
    if not config.required
    then passed
    else if not config.configured
    then service_unavailable
    else guard_of (get_session_user codec config now cookie)

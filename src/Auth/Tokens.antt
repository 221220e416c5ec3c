-- ===== src/Auth/Tokens.antt =====
-- What a session token says, and which tokens are accepted.
use Prim.Native.Nat.{◌+◌, ◌≤◌}
use auto_coin_bot.Common.{
  ℕ, ◌≡◌, refl, true, false, not, ◌&&◌, Option, none, some, List, [], ◌∷◌, ◌++◌, if◌then◌else◌,
  arith, All, ltb, leb, any, Bool-cases, inl, inr,
}
use auto_coin_bot.Auth.{
  Text, AuthConfig, Payload, Claims, Codec, nobody, user, b64url, b64url_decode, sign, rsplit,
  rsplit_at, verify_parts, accept_claims, load_bytes, is_unset, is_ascii, text_eq,
  create_session_token, verify_session_token, session_ttl_seconds,
}
use auto_coin_bot.Auth.Base64.Decoded.{AreBytes}
use auto_coin_bot.Auth.Unpadded.{IsPlain, decode-b64url, b64url-IsPlain}

rsplit-plain : (s : Text) → All IsPlain s → rsplit s ≡ none
unfolding rsplit
rsplit-plain [] h = refl
rsplit-plain (c ∷ s) (h, rest) = rw (rsplit-plain s rest) (rw h.1 refl)

rsplit-append :
    (body signature : Text)
    → All IsPlain signature
    → rsplit (body ++ b'.' ∷ signature) ≡ some (body, signature)
unfolding rsplit
rsplit-append [] signature h = rw (rsplit-plain signature h) refl
rsplit-append (c ∷ body) signature h = rw (rsplit-append body signature h) refl

rsplit_at_sound :
    (c : ℕ) (s body signature : Text) (found : Option (Text × Text))
    → ((b g : Text) → found ≡ some (b, g) → s ≡ b ++ b'.' ∷ g)
    → rsplit_at c s found ≡ some (body, signature)
    → c ∷ s ≡ body ++ b'.' ∷ signature
rsplit_at_sound c s body signature (some (b, g)) ih h = cc (ih b g refl, h)
rsplit_at_sound c s body signature none ih h = ground arith

rsplit_sound :
    (s body signature : Text) → rsplit s ≡ some (body, signature) → s ≡ body ++ b'.' ∷ signature
unfolding rsplit
rsplit_sound [] body signature h = cc h
rsplit_sound (c ∷ s) body signature h =
    rsplit_at_sound c s body signature (rsplit s) (λ b g. rsplit_sound s b g) h

ascii_plain : (s : Text) → All IsPlain s → any (λ c. leb 128 c) s ≡ false
ascii_plain [] h = refl
ascii_plain (c ∷ s) (h, rest) =
    let late : leb 128 c ≡ false = ground (arith, h.0) in rw (late, ascii_plain s rest) refl

text_eq_refl : (s : Text) → text_eq s s ≡ true
text_eq_refl [] = refl
text_eq_refl (c ∷ s) = ground (arith, text_eq_refl s)

text_eq_sound : (s t : Text) → text_eq s t ≡ true → s ≡ t
text_eq_sound [] [] h = refl
text_eq_sound [] (d ∷ t) h = cc h
text_eq_sound (c ∷ s) [] h = cc h
text_eq_sound (c ∷ s) (d ∷ t) h = ground (arith, text_eq_sound s t)

-- Documented behaviour of `json`: what was written is read back, and it is written in bytes.
abbrev pub Reads : Codec → Type 0
Reads codec =
    (p : Payload)
    → AreBytes (codec.dumps p)
      × (codec.loads (codec.dumps p) ≡ some (record { sub = p.sub; exp = p.exp }))

-- The administrator's own token is accepted until it is twelve hours old, and no longer.
pub verify-create :
    (codec : Codec) (config : AuthConfig) (now later : ℕ) (nonce : Text)
    → Reads codec
    → is_unset config.session_secret ≡ false
    → verify_session_token codec config later
        (create_session_token codec config now nonce config.username)
      ≡ (if ltb (now + session_ttl_seconds) later then nobody else user config.username)
unfolding verify_session_token create_session_token sign
verify-create codec config now later nonce reads secret =
    let payload : Payload = record {
      sub = config.username;
      iat = now;
      exp = now + session_ttl_seconds;
      nonce = nonce;
    } in
    let body = b64url (codec.dumps payload) in
    let signature = b64url (codec.hmac_sha256 config.session_secret body) in
    let plain = b64url-IsPlain (codec.dumps payload) in
    let signed = b64url-IsPlain (codec.hmac_sha256 config.session_secret body) in
    rw
      (
        secret,
        rsplit-append body signature signed,
        ascii_plain body plain,
        ascii_plain signature signed,
        text_eq_refl signature,
        decode-b64url _ (reads payload).0,
        (reads payload).1,
        text_eq_refl config.username,
      )
      refl

-- What a token has that is accepted.
pub record IsSigned (codec : Codec) (config : AuthConfig) (now : ℕ) (token u : Text) : Type 0 where
  pub body : Text
  pub bytes : List ℕ
  pub claims : Claims
  pub signed : token ≡ body ++ b'.' ∷ sign codec body config.session_secret
  pub decoded : b64url_decode body ≡ some bytes
  pub loaded : codec.loads bytes ≡ some claims
  pub unexpired : now ≤ claims.exp
  pub named : claims.sub ≡ config.username
  pub answered : u ≡ config.username

accept_claims-cases :
    (config : AuthConfig) (now : ℕ) (found : Option Claims) (u : Text)
    → accept_claims config now found ≡ user u
    → (claims : Claims) × (found ≡ some claims)
      × (now ≤ claims.exp)
      × (claims.sub ≡ config.username)
      × (u ≡ config.username)
accept_claims-cases config now none u h = cc h
accept_claims-cases config now (some claims) u h = elim (Bool-cases (ltb claims.exp now)) [
  | inl e ↦ cc (rw e at h)
  | inr e ↦ elim (Bool-cases (text_eq claims.sub config.username)) [
    | inl k ↦
        let same = text_eq_sound claims.sub config.username k in
        (claims, refl, ground (arith, e), same, cc (rw (e, k) at h, same))
    | inr k ↦ cc (rw (e, k) at h)
  ]
]

load_bytes-cases :
    (codec : Codec) (o : Option (List ℕ)) (claims : Claims)
    → load_bytes codec o ≡ some claims
    → (bytes : List ℕ) × (o ≡ some bytes) × (codec.loads bytes ≡ some claims)
load_bytes-cases codec none claims h = cc h
load_bytes-cases codec (some bytes) claims h = (bytes, refl, h)

accepted-IsSigned :
    (codec : Codec) (config : AuthConfig) (now : ℕ) (token body signature u : Text)
    → rsplit token ≡ some (body, signature)
    → text_eq (sign codec body config.session_secret) signature ≡ true
    → accept_claims config now (load_bytes codec (b64url_decode body)) ≡ user u
    → IsSigned codec config now token u
accepted-IsSigned codec config now token body signature u split same h =
    let (claims, found, until, name, answer) = accept_claims-cases config now _ u h in
    let (bytes, decoded, loaded) = load_bytes-cases codec (b64url_decode body) claims found in
    record {
      body = body;
      bytes = bytes;
      claims = claims;
      signed = cc (
        rsplit_sound token body signature split,
        text_eq_sound (sign codec body config.session_secret) signature same,
      );
      decoded = decoded;
      loaded = loaded;
      unexpired = until;
      named = name;
      answered = answer;
    }

verify_parts-IsSigned :
    (codec : Codec) (config : AuthConfig) (now : ℕ) (token u : Text) (parts : Option (Text × Text))
    → rsplit token ≡ parts
    → verify_parts codec config now parts ≡ user u
    → IsSigned codec config now token u
verify_parts-IsSigned codec config now token u none split h = cc h
verify_parts-IsSigned codec config now token u (some (body, signature)) split h =
    elim (Bool-cases (not (is_ascii body && is_ascii signature))) [
      | inl e ↦ cc (rw e at h)
      | inr e ↦ elim (Bool-cases (text_eq (sign codec body config.session_secret) signature)) [
        | inl k ↦ accepted-IsSigned codec config now token body signature u split k (rw (e, k) at h)
        | inr k ↦ cc (rw (e, k) at h)
      ]
    ]

-- A token is accepted for the configured name only, and only if it is a body with the signature of that
-- body under the secret, and the body's claims have not expired and bear the name.
pub verify-IsSigned :
    (codec : Codec) (config : AuthConfig) (now : ℕ) (token u : Text)
    → verify_session_token codec config now token ≡ user u
    → IsSigned codec config now token u
unfolding verify_session_token
verify-IsSigned codec config now token u h = elim (Bool-cases (is_unset config.session_secret)) [
  | inl e ↦ cc (rw e at h)
  | inr e ↦ verify_parts-IsSigned codec config now token u (rsplit token) refl (rw e at h)
]

-- ===== src/Auth/Tests.antt =====
-- A codec of which only the name and the time are written, and the theorems on a token of it.
use Prim.Native.Nat.{◌+◌}
use auto_coin_bot.Common.{
  ℕ, zero, suc, ◌≡◌, refl, ap, ◌∙◌, true, Option, none, some, List, [], ◌∷◌, ◌++◌, arith, ltb,
  if◌then◌else◌,
}
use auto_coin_bot.Auth
use auto_coin_bot.Auth.{
  Text, AuthConfig, Payload, Claims, Codec, Guard, session_ttl_seconds, create_session_token,
  verify_session_token, require_admin_session, user,
}
use auto_coin_bot.Auth.Base64.Decoded.{AreBytes}
use auto_coin_bot.Auth.Tokens.{Reads, IsSigned, verify-create, verify-IsSigned}

abbrev config : AuthConfig
config = record {
  username = b'a' ∷ [];
  session_secret = b's' ∷ [];
  required = true;
  configured = true;
}

-- Numbers in ones, each with a zero behind it.
abbrev ones : ℕ → List ℕ → List ℕ
ones zero rest = 0 ∷ rest
ones (suc n) rest = 1 ∷ ones n rest

abbrev all_ones : Text → List ℕ
all_ones [] = []
all_ones (c ∷ s) = ones c (all_ones s)

abbrev read : ℕ → List ℕ → List ℕ
read n [] = []
read n (zero ∷ bytes) = n ∷ read 0 bytes
read n (suc b ∷ bytes) = read (suc n) bytes

abbrev claims_of : List ℕ → Option Claims
claims_of [] = none
claims_of (exp ∷ sub) = some (record { sub = sub; exp = exp })

abbrev codec : Codec
codec = record {
  hmac_sha256 = λ key message. key ++ message;
  dumps = λ p. ones p.exp (all_ones p.sub);
  loads = λ bytes. claims_of (read 0 bytes);
}

ones-AreBytes : (n : ℕ) (rest : List ℕ) → AreBytes rest → AreBytes (ones n rest)
ones-AreBytes zero rest h = (omega arith, h)
ones-AreBytes (suc n) rest h = (omega arith, ones-AreBytes n rest h)

all_ones-AreBytes : (s : Text) → AreBytes (all_ones s)
all_ones-AreBytes [] = tt
all_ones-AreBytes (c ∷ s) = ones-AreBytes c (all_ones s) (all_ones-AreBytes s)

read-ones : (k n : ℕ) (rest : List ℕ) → read k (ones n rest) ≡ (k + n) ∷ read 0 rest
read-ones k zero rest = ap (λ m. m ∷ read 0 rest) (omega arith)
read-ones k (suc n) rest = read-ones (suc k) n rest ∙ ap (λ m. m ∷ read 0 rest) (omega arith)

read-first : (n : ℕ) (rest : List ℕ) → read 0 (ones n rest) ≡ n ∷ read 0 rest
read-first n rest = read-ones 0 n rest ∙ ap (λ m. m ∷ read 0 rest) (omega arith)

read-all_ones : (s : Text) → read 0 (all_ones s) ≡ s
read-all_ones [] = refl
read-all_ones (c ∷ s) = read-first c (all_ones s) ∙ ap (λ t. c ∷ t) (read-all_ones s)

codec-Reads : Reads codec
codec-Reads p = (
  ones-AreBytes p.exp (all_ones p.sub) (all_ones-AreBytes p.sub),
  ap claims_of (read-first p.exp (all_ones p.sub) ∙ ap (λ t. p.exp ∷ t) (read-all_ones p.sub)),
)

abbrev token : Text
token = create_session_token codec config 5 [] (b'a' ∷ [])

verify-create_example :
    verify_session_token codec config 100 token
    ≡ (if ltb (5 + session_ttl_seconds) 100 then Auth.nobody else user (b'a' ∷ []))
verify-create_example = verify-create codec config 5 100 [] codec-Reads refl

verify-IsSigned_example : IsSigned codec config 100 token (b'a' ∷ [])
verify-IsSigned_example = verify-IsSigned codec config 100 token (b'a' ∷ []) verify-create_example

-- A text that is not ASCII raises.
accented : require_admin_session codec config 100 (some (233 ∷ b'.' ∷ [])) ≡ Auth.failed
unfolding require_admin_session verify_session_token Auth.rsplit
accented = refl

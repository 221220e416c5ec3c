-- ===== src/Auth/Unpadded.antt =====
-- The text of bytes in base64 without its padding: it is read back, and has no dot.
use Prim.Native.Nat.{◌+◌, ◌-◌, ◌*◌, ◌/◌, ◌%◌, ◌<◌}
use auto_coin_bot.Common.{
  ℕ, ◌≡◌, refl, ap, ◌∙◌, false, some, List, [], ◌∷◌, ◌++◌, arith, All, ◌==◌, length,
}
use auto_coin_bot.Auth.{Text, keep_unless, rstrip, b64url, b64url_decode, repeat}
use auto_coin_bot.Auth.Base64.{char_of, urlsafe_b64encode}
use auto_coin_bot.Auth.Base64.Decoded.{AreBytes, char_of-not-pad, decode-encode}

keep_step : (t : Text) (c : ℕ) → (c == b'=') ≡ false → keep_unless t c ≡ c ∷ t
keep_step [] c h = rw h refl
keep_step (d ∷ t) c h = refl

-- What `b64url` gives, without the detour.
unpadded : List ℕ → Text
unpadded [] = []
unpadded (a ∷ []) = char_of (a / 4) ∷ char_of (a % 4 * 16) ∷ []
unpadded (a ∷ b ∷ []) = char_of (a / 4) ∷ char_of (a % 4 * 16 + b / 16) ∷ char_of (b % 16 * 4) ∷ []
unpadded (a ∷ b ∷ c ∷ bytes) =
    char_of (a / 4)
    ∷ char_of (a % 4 * 16 + b / 16)
    ∷ char_of (b % 16 * 4 + c / 64)
    ∷ char_of (c % 64)
    ∷ unpadded bytes

rstrip-encode : (bytes : List ℕ) → rstrip (urlsafe_b64encode bytes) ≡ unpadded bytes
unfolding urlsafe_b64encode rstrip unpadded
rstrip-encode [] = refl
rstrip-encode (a ∷ []) =
    ap (λ t. keep_unless t (char_of (a / 4))) (keep_step [] _ (char_of-not-pad (a % 4 * 16)))
rstrip-encode (a ∷ b ∷ []) =
    ap (λ t. keep_unless (keep_unless t (char_of (a % 4 * 16 + b / 16))) (char_of (a / 4)))
      (keep_step [] _ (char_of-not-pad (b % 16 * 4)))
rstrip-encode (a ∷ b ∷ c ∷ bytes) =
    let w = char_of (a / 4) in
    let x = char_of (a % 4 * 16 + b / 16) in
    let y = char_of (b % 16 * 4 + c / 64) in
    let z = char_of (c % 64) in
    ap (λ t. keep_unless (keep_unless (keep_unless t y) x) w)
      (keep_step (rstrip (urlsafe_b64encode bytes)) z (char_of-not-pad (c % 64)))
    ∙ ap (λ t. w ∷ x ∷ y ∷ z ∷ t) (rstrip-encode bytes)

pad_four :
    (s : Text) (w x y z : ℕ) → (4 - length (w ∷ x ∷ y ∷ z ∷ s) % 4) % 4 ≡ (4 - length s % 4) % 4
pad_four s w x y z = omega arith

-- The padding that `rstrip` takes away is what `b64url_decode` puts back.
repadded :
    (bytes : List ℕ)
    → unpadded bytes ++ repeat ((4 - length (unpadded bytes) % 4) % 4) b'='
      ≡ urlsafe_b64encode bytes
unfolding urlsafe_b64encode unpadded
repadded [] = refl
repadded (a ∷ []) = refl
repadded (a ∷ b ∷ []) = refl
repadded (a ∷ b ∷ c ∷ bytes) =
    let w = char_of (a / 4) in
    let x = char_of (a % 4 * 16 + b / 16) in
    let y = char_of (b % 16 * 4 + c / 64) in
    let z = char_of (c % 64) in
    ap (λ k. w ∷ x ∷ y ∷ z ∷ unpadded bytes ++ repeat k b'=') (pad_four (unpadded bytes) w x y z)
    ∙ ap (λ t. w ∷ x ∷ y ∷ z ∷ t) (repadded bytes)

pub decode-b64url : (bytes : List ℕ) → AreBytes bytes → b64url_decode (b64url bytes) ≡ some bytes
unfolding b64url_decode b64url
decode-b64url bytes h = rw (rstrip-encode bytes) (rw (repadded bytes) (decode-encode bytes h))

abbrev pub IsPlain : ℕ → Type 0
IsPlain c = (c < 128) × ((c == b'.') ≡ false)

char_of-IsPlain : (n : ℕ) → IsPlain (char_of n)
unfolding char_of
char_of-IsPlain n = (ground arith, ground arith)

unpadded-IsPlain : (bytes : List ℕ) → All IsPlain (unpadded bytes)
unfolding unpadded
unpadded-IsPlain [] = tt
unpadded-IsPlain (a ∷ []) = (char_of-IsPlain _, (char_of-IsPlain _, tt))
unpadded-IsPlain (a ∷ b ∷ []) = (char_of-IsPlain _, (char_of-IsPlain _, (char_of-IsPlain _, tt)))
unpadded-IsPlain (a ∷ b ∷ c ∷ bytes) = (
  char_of-IsPlain _,
  (char_of-IsPlain _, (char_of-IsPlain _, (char_of-IsPlain _, unpadded-IsPlain bytes))),
)

pub b64url-IsPlain : (bytes : List ℕ) → All IsPlain (b64url bytes)
unfolding b64url
b64url-IsPlain bytes = rw (rstrip-encode bytes) (unpadded-IsPlain bytes)

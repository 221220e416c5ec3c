-- ===== src/Auth/Base64.antt =====
-- Python's base64.urlsafe_b64encode and urlsafe_b64decode, which app/auth.py uses. The decoder skips
-- characters of no value, and stops at the padding of a group.
use Prim.Native.Nat.{◌+◌, ◌-◌, ◌*◌, ◌/◌, ◌%◌, ◌<◌}
use auto_coin_bot.Common.{
  ℕ, ◌≡◌, refl, Bool, true, false, ◌&&◌, ◌||◌, Option, none, some, List, [], ◌∷◌, ◌++◌, arith, All,
  if◌then◌else◌, ltb, leb, ◌==◌, append_assoc,
}
pub mod Decoded

unfoldable pub char_of : ℕ → ℕ
char_of n =
    if ltb n 26
    then n + 65
    else if ltb n 52
    then n + 71
    else if ltb n 62
    then n - 4
    else if n == 62
    then b'-'
    else b'_'

unfoldable pub value_of : ℕ → Option ℕ
value_of c =
    if leb b'A' c && leb c b'Z'
    then some (c - 65)
    else if leb b'a' c && leb c b'z'
    then some (c - 71)
    else if leb b'0' c && leb c b'9'
    then some (c + 4)
    else if c == b'-' || c == b'+'
    then some 62
    else if c == b'_' || c == b'/'
    then some 63
    else none

unfoldable pub urlsafe_b64encode : List ℕ → List ℕ
urlsafe_b64encode [] = []
urlsafe_b64encode (a ∷ []) = char_of (a / 4) ∷ char_of (a % 4 * 16) ∷ b'=' ∷ b'=' ∷ []
urlsafe_b64encode (a ∷ b ∷ []) =
    char_of (a / 4) ∷ char_of (a % 4 * 16 + b / 16) ∷ char_of (b % 16 * 4) ∷ b'=' ∷ []
urlsafe_b64encode (a ∷ b ∷ c ∷ bytes) =
    char_of (a / 4)
    ∷ char_of (a % 4 * 16 + b / 16)
    ∷ char_of (b % 16 * 4 + c / 64)
    ∷ char_of (c % 64)
    ∷ urlsafe_b64encode bytes

pub record State : Type 0 where
  pub quad : ℕ  -- the place in a group of four
  pub pads : ℕ
  pub left : ℕ  -- the bits of the last character that are not yet in a byte
  pub out : List ℕ
  pub done : Bool

unfoldable pub feed : State → ℕ → State
feed s v =
    if s.quad == 0
    then record s { quad = 1; pads = 0; left = v }
    else if s.quad == 1
    then record s { quad = 2; pads = 0; left = v % 16; out = s.out ++ (s.left * 4 + v / 16) ∷ [] }
    else if s.quad == 2
    then record s { quad = 3; pads = 0; left = v % 4; out = s.out ++ (s.left * 16 + v / 4) ∷ [] }
    else record s { quad = 0; pads = 0; left = 0; out = s.out ++ (s.left * 64 + v) ∷ [] }

unfoldable pub pad : State → State
pad s =
    if leb 2 s.quad then record s { pads = s.pads + 1; done = leb 4 (s.quad + s.pads + 1) } else s

abbrev feed_if : State → Option ℕ → State
feed_if s none = s
feed_if s (some v) = feed s v

unfoldable pub step : State → ℕ → State
step s c = if s.done then s else if c == b'=' then pad s else feed_if s (value_of c)

unfoldable pub run : State → List ℕ → State
run s [] = s
run s (c ∷ cs) = run (step s c) cs

abbrev pub start : List ℕ → State
start out = record { quad = 0; pads = 0; left = 0; out = out; done = false }

abbrev pub finish : State → Option (List ℕ)
finish s = if s.done || s.quad == 0 then some s.out else none

unfoldable pub urlsafe_b64decode : List ℕ → Option (List ℕ)
urlsafe_b64decode cs = finish (run (start []) cs)

-- ===== src/Auth/Base64/Decoded.antt =====
-- Decoding what was encoded gives it back.
use Prim.Native.Nat.{◌+◌, ◌*◌, ◌/◌, ◌%◌, ◌<◌}
use auto_coin_bot.Common.{
  ℕ, ◌≡◌, refl, sym, ap, ◌∙◌, false, some, List, [], ◌∷◌, ◌++◌, arith, All, ◌==◌, append_assoc,
  append_nil,
}
use auto_coin_bot.Auth.Base64.{
  char_of, value_of, urlsafe_b64encode, urlsafe_b64decode, State, feed, pad, step, run, start,
  finish,
}

value_of-char_of : (n : ℕ) → n < 64 → value_of (char_of n) ≡ some n
unfolding value_of char_of
value_of-char_of n h = ground arith

pub char_of-not-pad : (n : ℕ) → (char_of n == b'=') ≡ false
unfolding char_of
char_of-not-pad n = ground arith

abbrev at : ℕ → ℕ → ℕ → List ℕ → State
at quad pads left out = record { quad = quad; pads = pads; left = left; out = out; done = false }

step-char_of :
    (quad pads left n : ℕ) (out : List ℕ)
    → n < 64
    → step (at quad pads left out) (char_of n) ≡ feed (at quad pads left out) n
unfolding step
step-char_of quad pads left n out h = rw (char_of-not-pad n, value_of-char_of n h) refl

run-char_of :
    (quad pads left n : ℕ) (out cs : List ℕ)
    → n < 64
    → run (at quad pads left out) (char_of n ∷ cs) ≡ run (feed (at quad pads left out) n) cs
unfolding run
run-char_of quad pads left n out cs h = ap (λ s. run s cs) (step-char_of quad pads left n out h)

-- The first two, three and four characters of a group.
run-two :
    (v w : ℕ) (out cs : List ℕ)
    → v < 64
    → w < 64
    → run (start out) (char_of v ∷ char_of w ∷ cs)
      ≡ run (at 2 0 (w % 16) (out ++ (v * 4 + w / 16) ∷ [])) cs
unfolding feed
run-two v w out cs h k = run-char_of 0 0 0 v out (char_of w ∷ cs) h ∙ run-char_of 1 0 v w out cs k

run-three :
    (v w x : ℕ) (out cs : List ℕ)
    → v < 64
    → w < 64
    → x < 64
    → run (start out) (char_of v ∷ char_of w ∷ char_of x ∷ cs)
      ≡ run (at 3 0 (x % 4) ((out ++ (v * 4 + w / 16) ∷ []) ++ (w % 16 * 16 + x / 4) ∷ [])) cs
unfolding feed
run-three v w x out cs h k l =
    run-two v w out (char_of x ∷ cs) h k ∙ run-char_of 2 0 (w % 16) x _ cs l

run-four :
    (v w x y : ℕ) (out cs : List ℕ)
    → v < 64
    → w < 64
    → x < 64
    → y < 64
    → run (start out) (char_of v ∷ char_of w ∷ char_of x ∷ char_of y ∷ cs)
      ≡ run
          (start (
            ((out ++ (v * 4 + w / 16) ∷ []) ++ (w % 16 * 16 + x / 4) ∷ [])
            ++ (x % 4 * 64 + y) ∷ []))
          cs
unfolding feed
run-four v w x y out cs h k l m =
    run-three v w x out (char_of y ∷ cs) h k l ∙ run-char_of 3 0 (x % 4) y _ cs m

first_byte : (a b : ℕ) → b < 256 → a / 4 * 4 + (a % 4 * 16 + b / 16) / 16 ≡ a
first_byte a b h = omega arith

last_of_one : (a : ℕ) → a / 4 * 4 + a % 4 * 16 / 16 ≡ a
last_of_one a = omega arith

second_byte :
    (a b c : ℕ)
    → b < 256
    → c < 256
    → (a % 4 * 16 + b / 16) % 16 * 16 + (b % 16 * 4 + c / 64) / 4 ≡ b
second_byte a b c h k = omega arith

last_of_two : (a b : ℕ) → b < 256 → (a % 4 * 16 + b / 16) % 16 * 16 + b % 16 * 4 / 4 ≡ b
last_of_two a b h = omega arith

third_byte : (b c : ℕ) → c < 256 → (b % 16 * 4 + c / 64) % 4 * 64 + c % 64 ≡ c
third_byte b c h = omega arith

three_more :
    (out : List ℕ) (a b c : ℕ) (bytes : List ℕ)
    → (((out ++ a ∷ []) ++ b ∷ []) ++ c ∷ []) ++ bytes ≡ out ++ a ∷ b ∷ c ∷ bytes
three_more [] a b c bytes = refl
three_more (x ∷ out) a b c bytes = ap (λ xs. x ∷ xs) (three_more out a b c bytes)

abbrev pub AreBytes : List ℕ → Type 0
AreBytes = All (λ b. b < 256)

finish-run :
    (bytes out : List ℕ)
    → AreBytes bytes
    → finish (run (start out) (urlsafe_b64encode bytes)) ≡ some (out ++ bytes)
unfolding urlsafe_b64encode run step pad
finish-run [] out h = ap some (sym (append_nil out))
finish-run (a ∷ []) out h =
    ap finish
      (run-two (a / 4) (a % 4 * 16) out (b'=' ∷ b'=' ∷ []) (omega (arith, h.0)) (omega arith))
    ∙ ap (λ x. some (out ++ x ∷ [])) (last_of_one a)
finish-run (a ∷ b ∷ []) out (h, (k, _)) =
    ap finish (
      run-three (a / 4) (a % 4 * 16 + b / 16) (b % 16 * 4) out (b'=' ∷ []) (omega arith)
        (omega arith) (omega arith))
    ∙ (rw (first_byte a b k, last_of_two a b k) (ap some (append_assoc out (a ∷ []) (b ∷ []))))
finish-run (a ∷ b ∷ c ∷ bytes) out (h, (k, (l, rest))) =
    ap finish (
      run-four (a / 4) (a % 4 * 16 + b / 16) (b % 16 * 4 + c / 64) (c % 64) out
        (urlsafe_b64encode bytes) (omega arith) (omega arith) (omega arith) (omega arith))
    ∙ finish-run bytes _ rest
    ∙ rw (first_byte a b k, second_byte a b c k l, third_byte b c l)
        (ap some (three_more out a b c bytes))

pub decode-encode :
    (bytes : List ℕ) → AreBytes bytes → urlsafe_b64decode (urlsafe_b64encode bytes) ≡ some bytes
unfolding urlsafe_b64decode
decode-encode bytes h = finish-run bytes [] h

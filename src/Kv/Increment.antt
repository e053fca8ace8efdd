-- ===== src/Kv/Increment.antt =====
-- `inc_key`: the next number of the same size, with the highest byte first.
use mathlib.Core.List.{reverse-cons, reverse-reverse}
use native.Mathlib.Nat.{pow-succ'}
use history_tools.Common.{
  ℕ, ◌+◌, ◌^◌, ◌<◌, ◌≡◌, refl, ap, ◌∙◌, [], ◌∷◌, reverse, Bytes, arith, length, All, ◌==◌,
  if◌then◌else◌, length-append, All-append,
}
use history_tools.Kv.Keys.{inc_key, inc_reversed}
use history_tools.Kv.Laws.{value_le}

-- The number that a key spells.
abbrev pub value_be : Bytes → ℕ
value_be s = value_le (reverse s)

pub value_le-lt : (s : Bytes) → All (λ c. c < 256) s → value_le s < 256 ^ length s
value_le-lt [] h = omega arith
value_le-lt (c ∷ s) (hc, hs) = rw (pow-succ' 256 (length s)) (omega (arith, value_le-lt s hs))

inc_reversed-value :
    (s : Bytes)
    → All (λ c. c < 256) s
    → value_le (inc_reversed s) ≡ (if value_le s + 1 == 256 ^ length s then 0 else value_le s + 1)
unfolding inc_reversed
inc_reversed-value [] h = refl
inc_reversed-value (c ∷ s) (hc, hs) =
    let p = 256 ^ length s in
    let small : value_le s < p = value_le-lt s hs in
    let ih = inc_reversed-value s hs in rw (pow-succ' 256 (length s)) (ground (arith, ih, small))

length-inc_reversed : (s : Bytes) → length (inc_reversed s) ≡ length s
unfolding inc_reversed
length-inc_reversed [] = refl
length-inc_reversed (c ∷ s) = ground (arith, length-inc_reversed s)

pub length-reverse : (s : Bytes) → length (reverse s) ≡ length s
length-reverse [] = refl
length-reverse (c ∷ s) =
    ap (λ l. length l) (reverse-cons c s)
    ∙ omega (arith, length-append (reverse s) (c ∷ []), length-reverse s)

pub All-reverse : (P : ℕ → Type 0) (s : Bytes) → All P s → All P (reverse s)
All-reverse P [] h = tt
All-reverse P (c ∷ s) (hc, hs) =
    rw (reverse-cons c s) (All-append P (reverse s) (c ∷ []) (All-reverse P s hs) (hc, tt))

-- `inc_key` adds one to the number that the bytes of a key spell, and wraps to zero behind the
-- greatest number of its size; the size stays.
pub inc_key-value :
    (key : Bytes)
    → All (λ c. c < 256) key
    → (length (inc_key key) ≡ length key)
      × (value_be (inc_key key)
          ≡ (if value_be key + 1 == 256 ^ length key then 0 else value_be key + 1))
unfolding inc_key
inc_key-value key h = (
  length-reverse (inc_reversed (reverse key))
      ∙ length-inc_reversed (reverse key)
      ∙ length-reverse key,
  rw (reverse-reverse (inc_reversed (reverse key)), ← length-reverse key)
      (inc_reversed-value (reverse key) (All-reverse (λ c. c < 256) key h)),
)

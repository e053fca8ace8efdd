-- ===== src/Kv/Successor.antt =====
-- The key that `inc_key` makes of a prefix stands behind every key that begins with the prefix.
use mathlib.Core.List.{reverse-reverse}
use native.Mathlib.Nat.{pow-succ'}
use history_tools.Common.{
  ◌+◌, ◌*◌, ◌/◌, ◌%◌, ◌^◌, ◌<◌, ◌≡◌, ◌≢◌, refl, sym, ap, ◌∙◌, ◌++◌, [], ◌∷◌, reverse, Bytes, length,
  All, arith, append-nil, subst, ◌==◌, Bool-cases, inl, inr,
}
use history_tools.Kv.Keys.{inc_key, inc_reversed}
use history_tools.Kv.Laws.{le_bytes, be_bytes, value_le, reverse-le_bytes}
use history_tools.Kv.Increment.{value_be, inc_key-value, value_le-lt, All-reverse, length-reverse}
use history_tools.Kv.Order.{BytesLt, BytesLt-append, be_bytes-BytesLt}

le_bytes-value_le : (s : Bytes) → All (λ c. c < 256) s → le_bytes (length s) (value_le s) ≡ s
le_bytes-value_le [] h = refl
le_bytes-value_le (c ∷ s) (hc, hs) =
    let ih = le_bytes-value_le s hs in
    let low : (c + 256 * value_le s) % 256 ≡ c = omega arith in
    let high : (c + 256 * value_le s) / 256 ≡ value_le s = omega arith in rw (low, high, ih)

-- A byte string is spelled by its value.
be_bytes-value_be : (s : Bytes) → All (λ c. c < 256) s → be_bytes (length s) (value_be s) ≡ s
be_bytes-value_be s h =
    sym (reverse-le_bytes (length s) (value_be s))
    ∙ ap (λ k. reverse (le_bytes k (value_be s))) (sym (length-reverse s))
    ∙ ap reverse (le_bytes-value_le (reverse s) (All-reverse (λ c. c < 256) s h))
    ∙ reverse-reverse s

abbrev pub IsGreatest : Bytes → Type 0
IsGreatest s = All (λ c. c ≡ 255) s

value_le-IsGreatest :
    (s : Bytes) → All (λ c. c < 256) s → value_le s + 1 ≡ 256 ^ length s → IsGreatest s
value_le-IsGreatest [] h e = tt
value_le-IsGreatest (c ∷ s) (hc, hs) e =
    let small = value_le-lt s hs in
    let e' : c + 256 * value_le s + 1 ≡ 256 * 256 ^ length s = rw (← pow-succ' 256 (length s)) e in
    (omega arith, value_le-IsGreatest s hs (omega arith))

inc_reversed-bytes : (s : Bytes) → All (λ c. c < 256) s → All (λ c. c < 256) (inc_reversed s)
unfolding inc_reversed
inc_reversed-bytes [] h = tt
inc_reversed-bytes (c ∷ s) (hc, hs) = elim (Bool-cases ((c + 1) % 256 == 0)) [
  | inl wraps ↦ rw wraps (omega arith, inc_reversed-bytes s hs)
  | inr stays ↦ rw stays (omega arith, hs)
]

pub inc_key-bytes : (p : Bytes) → All (λ c. c < 256) p → All (λ c. c < 256) (inc_key p)
unfolding inc_key
inc_key-bytes p h =
    All-reverse (λ c. c < 256) (inc_reversed (reverse p))
      (inc_reversed-bytes (reverse p) (All-reverse (λ c. c < 256) p h))

pub BytesLt-inc_key :
    (p s : Bytes) → All (λ c. c < 256) p → ¬ IsGreatest p → BytesLt (p ++ s) (inc_key p)
BytesLt-inc_key p s h not_greatest =
    let size = length p in
    let v = value_be p in
    let bytes = All-reverse (λ c. c < 256) p h in
    let not_last : v + 1 ≢ 256 ^ size = λ e. not_greatest (
      subst IsGreatest (reverse-reverse p) (
        All-reverse (λ c. c ≡ 255) (reverse p)
          (value_le-IsGreatest (reverse p) bytes
            (e ∙ ap (λ k. 256 ^ k) (sym (length-reverse p)))))) in
    let small : v < 256 ^ size =
      subst (λ k. v < 256 ^ k) (length-reverse p) (value_le-lt (reverse p) bytes) in
    let (same_size, next) = inc_key-value p h in
    let next' : value_be (inc_key p) ≡ v + 1 = next ∙ ground (arith, not_last) in
    let e : p ≡ be_bytes size v = sym (be_bytes-value_be p h) in
    let e' : inc_key p ≡ be_bytes size (v + 1) =
      sym (be_bytes-value_be (inc_key p) (inc_key-bytes p h))
      ∙ ap (λ k. be_bytes k (value_be (inc_key p))) same_size
      ∙ ap (be_bytes size) next' in
    let lt : BytesLt (be_bytes size v) (be_bytes size (v + 1)) =
      be_bytes-BytesLt size v (v + 1) (omega arith) (omega arith) in
    let lt' : BytesLt p (inc_key p) =
      subst (λ q. BytesLt q (inc_key p)) (sym e)
        (subst (λ q. BytesLt (be_bytes size v) q) (sym e') lt) in
    subst (λ q. BytesLt (p ++ s) q) (append-nil (inc_key p))
      (BytesLt-append p (inc_key p) s [] (sym same_size) lt')

-- ===== src/Common/Decimal.antt =====
-- `std::to_string` of an unsigned number: its decimal digits, the last one first found.
use Prim.Native.Nat.{ℕ, zero, suc, ◌+◌, ◌/◌, ◌%◌}
use mathlib.Core.List.{[], ◌∷◌}
use history_tools.Common.Tests.{◌==◌, if◌then◌else◌}
use history_tools.Common.Lists.{Bytes}

-- The fuel bounds the digits; `n` has at most `n + 1` of them.
pub digits : ℕ → ℕ → Bytes → Bytes
digits zero n out = out
digits (suc fuel) n out =
    let more = digits fuel (n / 10) ((b'0' + n % 10) ∷ out) in
    if n / 10 == 0 then (b'0' + n % 10) ∷ out else more

unfoldable pub to_string : ℕ → Bytes
unfolding digits
to_string n = digits (suc n) n []

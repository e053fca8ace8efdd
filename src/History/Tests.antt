-- ===== src/History/Tests.antt =====
-- Witnesses and tests for the filters and the variant check.
use history_tools.Common.{
  ℕ, ◌≡◌, refl, ◌↔◌, ◌++◌, true, false, List, [], ◌∷◌, none, some, Bytes, Result, ok, err,
}
use history_tools.History.Filter.{
  TrxFilter, ActionTrace, matches, filter_action, filter_trace, Decides, filter_action_iff,
  filter_trace_iff,
}
use history_tools.History.Variant.{check_variant}

-- Transfers are left out, and whatever else contract 7 does is kept.
abbrev no_transfer : TrxFilter
no_transfer = record {
  include = false;
  status = none;
  receiver = none;
  act_account = some 7;
  act_name = some 100;
}

abbrev contract : TrxFilter
contract = record {
  include = true;
  status = some 0;
  receiver = none;
  act_account = some 7;
  act_name = none;
}

abbrev action : ℕ → ActionTrace
action name = record { receiver = 7; act_account = 7; act_name = name }

keeps_others : filter_action (no_transfer ∷ contract ∷ []) 0 (action 5) ≡ true
unfolding filter_action matches
keeps_others = refl

drops_transfer : filter_trace (no_transfer ∷ contract ∷ []) 0 (action 100 ∷ []) ≡ false
unfolding filter_trace filter_action matches
drops_transfer = refl

filter_action_iff_example :
    (filter_action (no_transfer ∷ contract ∷ []) 0 (action 5) ≡ true)
    ↔ ((f : TrxFilter) × Decides (no_transfer ∷ contract ∷ []) 0 (action 5) f × (f.include ≡ true))
filter_action_iff_example = filter_action_iff (no_transfer ∷ contract ∷ []) 0 (action 5)

filter_trace_iff_example :
    ((filter_trace (no_transfer ∷ contract ∷ []) 0 (action 100 ∷ action 5 ∷ []) ≡ true) ↔ (
      (before : List ActionTrace) × (a : ActionTrace) × (after : List ActionTrace) × (action 100
          ∷ action 5
          ∷ []
        ≡ before ++ a ∷ after)
      × (filter_action (no_transfer ∷ contract ∷ []) 0 a ≡ true)))
    × (filter_trace (no_transfer ∷ contract ∷ []) 0 [] ≡ false)
filter_trace_iff_example =
    filter_trace_iff (no_transfer ∷ contract ∷ []) 0 (action 100 ∷ action 5 ∷ [])

first_byte : Bytes → Result (ℕ × Bytes)
first_byte [] = err "end of stream"
first_byte (c ∷ s) = ok (c, s)

second_alternative :
    check_variant first_byte (1 ∷ 9 ∷ []) (some ((4 ∷ []) ∷ (5 ∷ []) ∷ [])) 1 ≡ ok (9 ∷ [])
unfolding check_variant first_byte
second_alternative = refl

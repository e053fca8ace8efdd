-- ===== src/History/Filter.antt =====
-- `trx_filter`, `matches` and the two `filter` functions of src/state_history.hpp. A name is its
-- 64-bit value. Of a trace only the parts that the filters read are kept.
use history_tools.Common.{
  ℕ, ◌≡◌, refl, ap, ◌∙◌, ◌↔◌, inl, inr, Bool, true, false, List, [], ◌∷◌, ◌++◌, Option, none, some,
  arith, ◌==◌, if◌then◌else◌, Bool-cases, All,
}

pub record TrxFilter : Type 0 where
  pub include : Bool
  pub status : Option ℕ
  pub receiver : Option ℕ
  pub act_account : Option ℕ
  pub act_name : Option ℕ

pub record ActionTrace : Type 0 where
  pub receiver : ℕ
  pub act_account : ℕ
  pub act_name : ℕ

-- `filter.x && value != *filter.x`
differs : Option ℕ → ℕ → Bool
differs none v = false
differs (some x) v = if v == x then false else true

unfoldable pub matches : TrxFilter → ℕ → ActionTrace → Bool
unfolding differs
matches filter status atrace =
    if differs filter.status status
    then false
    else if differs filter.receiver atrace.receiver
    then false
    else if differs filter.act_account atrace.act_account
    then false
    else if differs filter.act_name atrace.act_name
    then false
    else true

-- `filter(filters, status, atrace)`: the loop returns at the first filter that matches.
unfoldable pub filter_action : List TrxFilter → ℕ → ActionTrace → Bool
filter_action [] status atrace = false
filter_action (filt ∷ filters) status atrace =
    let rest = filter_action filters status atrace in
    if matches filt status atrace then (if filt.include then true else false) else rest

-- `filter(filters, trace)`: one accepted action is enough.
unfoldable pub filter_trace : List TrxFilter → ℕ → List ActionTrace → Bool
filter_trace filters status [] = false
filter_trace filters status (atrace ∷ action_traces) =
    let rest = filter_trace filters status action_traces in
    if filter_action filters status atrace then true else rest

-- A criterion that is absent accepts every value, and one that is present only its own.
abbrev pub Accepts : Option ℕ → ℕ → Type 0
Accepts o v = (x : ℕ) → o ≡ some x → v ≡ x

differs-Accepts : (o : Option ℕ) (v : ℕ) → (differs o v ≡ false) ↔ Accepts o v
unfolding differs
differs-Accepts none v = ((λ _ x e. cc), λ _. refl)
differs-Accepts (some y) v = (
  (λ h x e. ground arith),
  λ h. elim (Bool-cases (v == y)) [
    | inl e ↦ ground arith
    | inr e ↦ absurd (ground (arith, h y refl))
  ],
)

-- A filter matches an action exactly when each of its four criteria accepts the action's value.
pub matches_iff :
    (f : TrxFilter) (status : ℕ) (a : ActionTrace)
    → (matches f status a ≡ true) ↔ (
        Accepts f.status status
        × Accepts f.receiver a.receiver
        × Accepts f.act_account a.act_account
        × Accepts f.act_name a.act_name)
unfolding matches
matches_iff f status a = (
  (λ h. (
    (differs-Accepts f.status status).0 (ground arith),
    (differs-Accepts f.receiver a.receiver).0 (ground arith),
    (differs-Accepts f.act_account a.act_account).0 (ground arith),
    (differs-Accepts f.act_name a.act_name).0 (ground arith),
  )),
  λ h. ground (
    arith,
    (differs-Accepts f.status status).1 h.0,
    (differs-Accepts f.receiver a.receiver).1 h.1,
    (differs-Accepts f.act_account a.act_account).1 h.2,
    (differs-Accepts f.act_name a.act_name).1 h.3,
  ),
)

-- The filters that precede the one which decides.
abbrev pub Decides : List TrxFilter → ℕ → ActionTrace → TrxFilter → Type 0
Decides filters status a f =
    (before : List TrxFilter) × (after : List TrxFilter) × (filters ≡ before ++ f ∷ after)
    × All (λ g. matches g status a ≡ false) before
    × (matches f status a ≡ true)

filter_action_first :
    (fs : List TrxFilter) (status : ℕ) (a : ActionTrace)
    → filter_action fs status a ≡ true
    → (f : TrxFilter) × Decides fs status a f × (f.include ≡ true)
unfolding filter_action
filter_action_first [] status a h = cc
filter_action_first (f ∷ fs) status a h = elim (Bool-cases (matches f status a)) [
  | inl m ↦ (f, ([], fs, refl, tt, m), ground arith)
  | inr m ↦
      let (g, (before, after, e, n, mg), inc) = filter_action_first fs status a (ground arith) in
      (g, (f ∷ before, after, ap (λ l. f ∷ l) e, (m, n), mg), inc)
]

filter_action_append :
    (before : List TrxFilter) (f : TrxFilter) (after : List TrxFilter) (status : ℕ)
    (a : ActionTrace)
    → All (λ g. matches g status a ≡ false) before
    → matches f status a ≡ true
    → filter_action (before ++ f ∷ after) status a ≡ f.include
unfolding filter_action
filter_action_append [] f after status a n m = ground arith
filter_action_append (g ∷ gs) f after status a (ng, n) m =
    ground (arith, filter_action_append gs f after status a n m)

-- An action is kept exactly when the first filter that matches it says to include it.
pub filter_action_iff :
    (filters : List TrxFilter) (status : ℕ) (a : ActionTrace)
    → (filter_action filters status a ≡ true)
      ↔ ((f : TrxFilter) × Decides filters status a f × (f.include ≡ true))
filter_action_iff filters status a = (
  filter_action_first filters status a,
  λ (f, (before, after, e, n, m), inc).
      rw e (filter_action_append before f after status a n m ∙ inc),
)

filter_trace_some :
    (filters : List TrxFilter) (status : ℕ) (atraces : List ActionTrace)
    → filter_trace filters status atraces ≡ true
    → (before : List ActionTrace) × (a : ActionTrace) × (after : List ActionTrace) × (atraces
        ≡ before ++ a ∷ after)
      × (filter_action filters status a ≡ true)
unfolding filter_trace
filter_trace_some filters status [] h = cc
filter_trace_some filters status (a ∷ as_) h = elim (Bool-cases (filter_action filters status a)) [
  | inl k ↦ ([], a, as_, refl, k)
  | inr k ↦
      let (before, b, after, e, kb) = filter_trace_some filters status as_ (ground arith) in
      (a ∷ before, b, after, ap (λ l. a ∷ l) e, kb)
]

filter_trace_append :
    (filters : List TrxFilter) (status : ℕ) (before : List ActionTrace) (a : ActionTrace)
    (after : List ActionTrace)
    → filter_action filters status a ≡ true
    → filter_trace filters status (before ++ a ∷ after) ≡ true
unfolding filter_trace
filter_trace_append filters status [] a after k = ground arith
filter_trace_append filters status (b ∷ bs) a after k =
    ground (arith, filter_trace_append filters status bs a after k)

-- A transaction trace is kept exactly when one of its actions is, so one without actions is not kept
-- by any filters.
pub filter_trace_iff :
    (filters : List TrxFilter) (status : ℕ) (atraces : List ActionTrace)
    → ((filter_trace filters status atraces ≡ true) ↔ (
        (before : List ActionTrace) × (a : ActionTrace) × (after : List ActionTrace) × (atraces
          ≡ before ++ a ∷ after)
        × (filter_action filters status a ≡ true)))
      × (filter_trace filters status [] ≡ false)
unfolding filter_trace
filter_trace_iff filters status atraces = (
  (
    filter_trace_some filters status atraces,
    λ (before, a, after, e, k). rw e (filter_trace_append filters status before a after k),
  ),
  refl,
)

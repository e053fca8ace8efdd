-- ===== src/WasmQl/Rounds.antt =====
-- `retry_loop`: at most four rounds, and no session is left open.
use history_tools.Common.{
  ℕ, zero, suc, ◌<◌, ◌≡◌, refl, Bytes, Option, none, some, Result, ok, err, arith,
}
use history_tools.WasmQl.State.{Backend, Serializer, ThreadState, Call}
use history_tools.WasmQl.Query.{round, release, retry_loop, after_round, query, query_round}

module _ {ℓ} {A : Type ℓ} (b : Backend) (sr : Serializer) (f : Call b (Option A)) where
  -- A number of rounds one after the other, each of which saw a fork.
  pub data Forked : ℕ → ThreadState b → ThreadState b → Type ℓ where
    no_round : (st : ThreadState b) → Forked 0 st st
    forked_round :
        {n : ℕ} {st st1 st2 : ThreadState b}
        → round b sr f st ≡ (ok none, st1)
        → Forked n st1 st2
        → Forked (suc n) st st2

  -- What the loop may end with.
  pub data Ended (tries : ℕ) (st st' : ThreadState b) : Result A → Type ℓ where
    succeeded :
        {n : ℕ} {value : A} {st1 : ThreadState b}
        → n < tries
        → Forked n st st1
        → round b sr f st1 ≡ (ok (some value), st')
        → Ended tries st st' (ok value)
    failed :
        {n : ℕ} {e : _} {st1 : ThreadState b}
        → n < tries
        → Forked n st st1
        → round b sr f st1 ≡ (err e, st')
        → Ended tries st st' (err e)
    too_many : Forked tries st st' → Ended tries st st' (err "too many fork events during request")

  Ended-later :
      (tries : ℕ) (st st1 st' : ThreadState b) (r : Result A)
      → round b sr f st ≡ (ok none, st1)
      → Ended tries st1 st' r
      → Ended (suc tries) st st' r
  Ended-later tries st st1 st' r h (succeeded lt fs e) =
      succeeded (omega (arith, lt)) (forked_round h fs) e
  Ended-later tries st st1 st' r h (failed lt fs e) =
      failed (omega (arith, lt)) (forked_round h fs) e
  Ended-later tries st st1 st' r h (too_many fs) = too_many (forked_round h fs)

  after_round-Ended :
      (tries : ℕ) (st : ThreadState b) (r : Result (Option A) × ThreadState b)
      → round b sr f st ≡ r
      → ((st1 : ThreadState b)
          → Ended tries st1 (retry_loop b sr tries f st1).1 (retry_loop b sr tries f st1).0)
      → Ended
          (suc tries)
          st
          (after_round b sr (retry_loop b sr tries f) r).1
          (after_round b sr (retry_loop b sr tries f) r).0
  unfolding after_round
  after_round-Ended tries st (err e, st') h again = failed (omega arith) (no_round st) h
  after_round-Ended tries st (ok (some value), st') h again =
      succeeded (omega arith) (no_round st) h
  after_round-Ended tries st (ok none, st1) h again =
      Ended-later tries st st1 (retry_loop b sr tries f st1).1 (retry_loop b sr tries f st1).0 h
        (again st1)

  -- The loop of so many tries gives the value of the first round without a fork, or the error that
  -- a round threw, each behind fewer forks than tries; or every try saw a fork.
  pub retry_loop-Ended :
      (tries : ℕ) (st : ThreadState b)
      → Ended tries st (retry_loop b sr tries f st).1 (retry_loop b sr tries f st).0
  unfolding retry_loop
  retry_loop-Ended zero st = too_many (no_round st)
  retry_loop-Ended (suc tries) st =
      after_round-Ended tries st (round b sr f st) refl (retry_loop-Ended tries)

  round-release : (st : ThreadState b) → (round b sr f st).1.query_session ≡ none
  unfolding round release
  round-release st = refl

  after_round-release :
      (tries : ℕ) (r : Result (Option A) × ThreadState b)
      → r.1.query_session ≡ none
      → ((st : ThreadState b)
          → st.query_session ≡ none
          → (retry_loop b sr tries f st).1.query_session ≡ none)
      → (after_round b sr (retry_loop b sr tries f) r).1.query_session ≡ none
  unfolding after_round
  after_round-release tries (err e, st) h again = h
  after_round-release tries (ok (some value), st) h again = h
  after_round-release tries (ok none, st) h again = again st h

  retry_loop-none :
      (tries : ℕ) (st : ThreadState b)
      → st.query_session ≡ none
      → (retry_loop b sr tries f st).1.query_session ≡ none
  unfolding retry_loop
  retry_loop-none zero st h = h
  retry_loop-none (suc tries) st h =
      after_round-release tries (round b sr f st) (round-release st) (retry_loop-none tries)

  retry_loop-release :
      (tries : ℕ) (st : ThreadState b) → (retry_loop b sr (suc tries) f st).1.query_session ≡ none
  unfolding retry_loop
  retry_loop-release tries st =
      after_round-release tries (round b sr f st) (round-release st) (retry_loop-none tries)

module _ (b : Backend) (sr : Serializer) where
  -- A query leaves no session open, whether it gives a result or throws.
  pub query-release :
      (request : Bytes) (st : ThreadState b) → (query b sr request st).1.query_session ≡ none
  unfolding query
  query-release request st = retry_loop-release b sr (query_round b sr request) 3 st

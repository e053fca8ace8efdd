-- ===== src/WasmQl/Consistent.antt =====
-- What a query that succeeds has done, from its rounds to its reply.
use history_tools.Common.{
  ℕ, ◌<◌, ◌≡◌, ◌≢◌, refl, sym, ap, ◌∙◌, subst, not, ◌++◌, List, Bytes, Option, some, Result, ok,
  err, ◌==◌, arith, length, ok-injective,
}
use history_tools.History.{FillStatus}
use history_tools.WasmQl.State.{
  Backend, Serializer, ThreadState, Call, after_call, on_some, throw_unless,
}
use history_tools.WasmQl.Query.{
  query_round, query, round, start_round, release, status_to_bin, open_session, set_session,
  load_status, fill_context_data,
}
use history_tools.WasmQl.Frame.{on_some-SameSession}
use history_tools.WasmQl.Rounds.{Forked, Ended, succeeded, failed, too_many, retry_loop-Ended}
use history_tools.WasmQl.Reply.{
  after_call-ok, throw_unless-true, Served, run_requests-Served, pack_all,
}

-- A state in which a round calls its function: it has a session, and the bytes are those of the
-- fill status, whose database is not empty.
pub record Ready (b : Backend) (sr : Serializer) (session : b.QuerySession) (st : ThreadState b)
    : Type 0 where
  pub opened : st.query_session ≡ some session
  pub not_empty : st.fill_status.head ≢ 0
  pub bin : st.database_status ≡ status_to_bin b sr st.fill_status

module _ (b : Backend) (sr : Serializer) where
  set_session-some :
      (r : Result b.QuerySession × b.Shared) (st : ThreadState b) {u : Unit {0}}
      → (set_session b sr r st).0 ≡ ok u
      → (session : b.QuerySession) × ((set_session b sr r st).1.query_session ≡ some session)
  unfolding set_session
  set_session-some (err e, shared) st h = cc
  set_session-some (ok session, shared) st h = (session, refl)

  open_session-some :
      (st : ThreadState b) {u : Unit {0}}
      → (open_session b sr st).0 ≡ ok u
      → (session : b.QuerySession) × ((open_session b sr st).1.query_session ≡ some session)
  unfolding open_session
  open_session-some st h = set_session-some (b.create_query_session st.shared) st h

  load_status-session :
      (st : ThreadState b) → (load_status b sr st).1.query_session ≡ st.query_session
  unfolding load_status
  load_status-session st =
      after_status (on_some b.get_fill_status st.query_session st)
      ∙ (on_some-SameSession b.get_fill_status st.query_session st).session
    where
      after_status :
          (r : Result FillStatus × ThreadState b)
          → (after_call {0, 0}
              (λ status st'. (ok tt, record st' { fill_status = status }))
              r).1.query_session
            ≡ r.1.query_session
      after_status (err e, st') = refl
      after_status (ok status, st') = refl

  start_round-Ready :
      (st : ThreadState b) {u : Unit {0}} {st' : ThreadState b}
      → start_round b sr st ≡ (ok u, st')
      → (session : b.QuerySession) × Ready b sr session st'
  unfolding start_round fill_context_data
  start_round-Ready st h =
      let s1 = (open_session b sr st).1 in
      let s2 = (load_status b sr s1).1 in
      let some_head = not (s2.fill_status.head == 0) in
      let (_, e1, h1) = after_call-ok _ (open_session b sr st) h in
      let (_, e2, h2) = after_call-ok _ (load_status b sr s1) h1 in
      let (_, e3, h3) = after_call-ok _ (throw_unless some_head "database is empty" s2) h2 in
      let (session, opened) = open_session-some st e1 in
      let (is_some, same) = throw_unless-true some_head "database is empty" s2 e3 in
      let ready : Ready b sr session
          (record s2 { database_status = status_to_bin b sr s2.fill_status }) =
        record { opened = load_status-session s1 ∙ opened; not_empty = ground arith; bin = refl } in
      (
        session,
        subst (Ready b sr session)
            (ap
                (λ (s : ThreadState b). record s {
                  database_status = status_to_bin b sr s.fill_status;
                })
                (sym same)
              ∙ ap (λ r. r.1) h3)
            ready,
      )

  -- A round that gives a value started, and its function gave it.
  round-Ready {ℓ} :
      {A : Type ℓ} (f : Call b (Option A)) (st : ThreadState b) {value : A} {st' : ThreadState b}
      → round b sr f st ≡ (ok (some value), st')
      → (session : b.QuerySession) × (s0 : ThreadState b) × (s1 : ThreadState b) × Ready b sr
          session s0
        × (f s0 ≡ (ok (some value), s1))
  unfolding round release
  round-Ready f st h =
      let s0 = (start_round b sr st).1 in
      let whole = after_call (λ _. f) (start_round b sr st) in
      let (u, e1, h1) =
        after_call-ok (λ _. f) (start_round b sr st) (ap (λ r. (r, whole.1)) (ap (λ r. r.0) h)) in
      let (session, ready) = start_round-Ready st (ap (λ r. (r, s0)) e1) in
      (session, s0, whole.1, ready, h1)

  -- A loop that gives a value had a round that gave it.
  Ended-round {ℓ} :
      {A : Type ℓ} (f : Call b (Option A)) (tries : ℕ) (st st' : ThreadState b) (r : Result A)
      {value : A}
      → Ended b sr f tries st st' r
      → r ≡ ok value
      → (n : ℕ) × (st1 : ThreadState b) × (n < tries)
        × Forked b sr f n st st1
        × (round b sr f st1 ≡ (ok (some value), st'))
  Ended-round f tries st st' r (succeeded {n = n} {st1 = st1} lt fs h) e =
      (n, st1, lt, fs, h ∙ ap (λ v. (ok (some v), st')) (ok-injective e))
  Ended-round f tries st st' r (failed lt fs h) e = absurd (cc)
  Ended-round f tries st st' r (too_many fs) e = absurd (cc)

  -- A query that succeeds: fewer than four rounds saw a fork, and the next one started in a state
  -- with one session and one fill status, whose head is not zero. On them the requests were served in
  -- the order in which they stand in the bytes, each by the program that it names, which got the bytes
  -- behind the name, with a check behind it that the head still has its id; the result is the number of
  -- requests followed by the reply of each, in their order.
  pub query-Served :
      (request : Bytes) (st : ThreadState b) {result : Bytes} {st' : ThreadState b}
      → query b sr request st ≡ (ok result, st')
      → (forks : ℕ) × (st1 : ThreadState b) × (session : b.QuerySession) × (s0 : ThreadState b)
        × (s1 : ThreadState b) × (num_requests : ℕ) × (request_bin : Bytes) × (replies : List Bytes)
        × (forks < 4)
        × Forked b sr (query_round b sr request) forks st st1
        × Ready b sr session s0
        × (sr.bin_to_varuint32 request ≡ ok (num_requests, request_bin))
        × Served b sr session s0.fill_status num_requests request_bin s0 replies s1
        × (length replies ≡ num_requests)
        × (result ≡ sr.push_varuint32 num_requests ++ pack_all b sr replies)
  unfolding query query_round
  query-Served request st h =
      let f = query_round b sr request in
      let (forks, st1, lt, fs, e) =
        Ended-round f 4 st _ _ (retry_loop-Ended b sr f 4 st) (ap (λ r. r.0) h) in
      let (session, s0, s1, ready, ran) = round-Ready f st1 e in
      let (p, parsed, rest) = after_call-ok _ (sr.bin_to_varuint32 request, s0) ran in
      let (replies, all, len, eq) =
        run_requests-Served b sr session s0.fill_status p.0 p.1 (sr.push_varuint32 p.0) s0
          ready.opened refl rest in
      (forks, st1, session, s0, s1, p.0, p.1, replies, lt, fs, ready, parsed, all, len, eq)

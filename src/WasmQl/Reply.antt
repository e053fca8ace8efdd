-- ===== src/WasmQl/Reply.antt =====
-- A query that succeeds: its replies come from one session, behind one check for a fork each.
use history_tools.Common.{
  ℕ, zero, suc, ◌≡◌, true, String, Result-cases, inl, inr, refl, sym, ap, subst, ◌∙◌, Bool, false,
  ◌++◌, List, [], ◌∷◌, Bytes, codes, Option, none, some, Result, ok, err, ◌==◌, arith, length,
  Bool-cases, append_assoc, append-nil, ok-injective,
}
use history_tools.History.{FillStatus}
use history_tools.WasmQl.State.{
  Backend, Serializer, ThreadState, Call, return, after_call, on_some, throw_unless,
}
use history_tools.WasmQl.Query.{
  run_query, did_fork, id_changed, run_request, run_requests, request_name, pack,
}
use history_tools.WasmQl.Frame.{
  SameSession, SameSession-trans, run_query-SameSession, did_fork-SameSession,
}

-- What a successful call was followed by.
pub after_call-ok {ℓ ℓ'} :
    {b : Backend} {A : Type ℓ} {B : Type ℓ'} (rest : A → Call b B) (r : Result A × ThreadState b)
    {value : B} {st' : ThreadState b}
    → after_call rest r ≡ (ok value, st')
    → (a : A) × (r.0 ≡ ok a) × (rest a r.1 ≡ (ok value, st'))
after_call-ok rest (err e, st) h = let clash = ap (λ q. q.0) h in cc
after_call-ok rest (ok a, st) h = (a, refl, h)

module _ (b : Backend) (sr : Serializer) (session : b.QuerySession) (status : FillStatus) where
  -- So many requests, one behind the other in the bytes, that were served in turn, and their replies:
  -- each names the namespace `local` and a program, which got the bytes behind the two names and ran on
  -- the session and the fill status, after which the session had the status's head under the same id.
  pub data Served : ℕ → Bytes → ThreadState b → List Bytes → ThreadState b → Type 0 where
    none_served : (request_bin : Bytes) (st : ThreadState b) → Served 0 request_bin st [] st
    served :
        {n : ℕ} {request_bin request rest named input : Bytes} {st0 st2 st3 : ThreadState b}
        {replies : List Bytes} (short_name : ℕ)
        → sr.bin_to_input_buffer request_bin ≡ ok (request, rest)
        → sr.bin_to_name request ≡ ok (sr.name_value (codes "local"), named)
        → sr.bin_to_name named ≡ ok (short_name, input)
        → st0.query_session ≡ some session
        → st0.fill_status ≡ status
        → run_query b sr short_name (record st0 { request = input }) ≡ (ok tt, st2)
        → (b.get_block_id session status.head st2.shared).0 ≡ ok (some status.head_id)
        → Served n rest
            (record st2 { shared = (b.get_block_id session status.head st2.shared).1 })
            replies
            st3
        → Served (suc n) request_bin st0 (st2.reply ∷ replies) st3

pub throw_unless-true :
    {b : Backend} (c : Bool) (e : String) (st : ThreadState b) {u : Unit {0}}
    → (throw_unless {b = b} c e st).0 ≡ ok u
    → (c ≡ true) × ((throw_unless {b = b} c e st).1 ≡ st)
throw_unless-true true e st h = (refl, refl)
throw_unless-true false e st h = cc

module _ (b : Backend) (sr : Serializer) where
  id_changed-eq :
      (head_id : ℕ) (o : Option ℕ) → id_changed b sr head_id o ≡ false → o ≡ some head_id
  unfolding id_changed
  id_changed-eq head_id none h = cc
  id_changed-eq head_id (some id) h = ap some (ground arith)

  did_fork-eq :
      (session : b.QuerySession) (st : ThreadState b) {st' : ThreadState b}
      → st.query_session ≡ some session
      → did_fork b sr st ≡ (ok false, st')
      → ((b.get_block_id session st.fill_status.head st.shared).0
          ≡ ok (some st.fill_status.head_id))
        × (st' ≡ record st { shared = (b.get_block_id session st.fill_status.head st.shared).1 })
  unfolding did_fork
  did_fork-eq session st e h =
      let look = λ (o : Option b.QuerySession).
        on_some {b = b} (λ s. b.get_block_id s st.fill_status.head) o st in
      let answer : Option ℕ → Call b Bool =
        λ id. return (id_changed b sr st.fill_status.head_id id) in
      let (id, found, left) =
        after_call-ok answer (look (some session))
          (ap (λ o. after_call answer (look o)) (sym e) ∙ h) in
      (
        found ∙ ap ok (id_changed-eq st.fill_status.head_id id (ok-injective (ap (λ r. r.0) left))),
        sym (ap (λ r. r.1) left),
      )

  did_fork-status :
      (session : b.QuerySession) (status : FillStatus) (st : ThreadState b) {st' : ThreadState b}
      → st.query_session ≡ some session
      → st.fill_status ≡ status
      → did_fork b sr st ≡ (ok false, st')
      → ((b.get_block_id session status.head st.shared).0 ≡ ok (some status.head_id))
        × (st' ≡ record st { shared = (b.get_block_id session status.head st.shared).1 })
  did_fork-status session status st {st'} es ef h =
      subst
        (λ (f : FillStatus).
          ((b.get_block_id session f.head st.shared).0 ≡ ok (some f.head_id))
          × (st' ≡ record st { shared = (b.get_block_id session f.head st.shared).1 }))
        ef (did_fork-eq session st es h)

  -- The replies within a result.
  unfoldable pub pack_all : List Bytes → Bytes
  pack_all [] = []
  pack_all (reply ∷ replies) = pack b sr reply ++ pack_all replies

  -- A name that is taken from the request.
  request_name-ok :
      (st : ThreadState b) {name : ℕ}
      → (request_name b sr st).0 ≡ ok name
      → (rest : Bytes) × (sr.bin_to_name st.request ≡ ok (name, rest))
        × ((request_name b sr st).1 ≡ record st { request = rest })
  unfolding request_name
  request_name-ok st {name} h = elim (Result-cases (sr.bin_to_name st.request)) [
    | inl ((n, rest), e) ↦
        let same : n ≡ name = ok-injective (rw (request_name, e) at h) in
        (rest, e ∙ ap (λ k. ok (k, rest)) same, rw (request_name, e) refl)
    | inr (m, e) ↦ absurd (let clash = rw (request_name, e) at h in cc)
  ]

  -- What a request without a fork has done.
  run_request-served :
      (request : Bytes) (st : ThreadState b) {st' : ThreadState b}
      → run_request b sr request st ≡ (ok false, st')
      → (named : Bytes) × (short_name : ℕ) × (input : Bytes) × (st2 : ThreadState b)
        × (sr.bin_to_name request ≡ ok (sr.name_value (codes "local"), named))
        × (sr.bin_to_name named ≡ ok (short_name, input))
        × (run_query b sr short_name (record st { request = input }) ≡ (ok tt, st2))
        × (did_fork b sr st2 ≡ (ok false, st'))
  unfolding run_request
  run_request-served request st h =
      let st0 = record st { request = request } in
      let (ns_name, e1, h1) = after_call-ok _ (request_name b sr st0) h in
      let st1 = (request_name b sr st0).1 in
      let is_local =
        throw_unless {b = b} (ns_name == sr.name_value (codes "local")) "unknown namespace: " in
      let (_, e2, h2) = after_call-ok _ (is_local st1) h1 in
      let st2 = (is_local st1).1 in
      let (short_name, e3, h3) = after_call-ok _ (request_name b sr st2) h2 in
      let st3 = (request_name b sr st2).1 in
      let (_, e4, h4) = after_call-ok _ (run_query b sr short_name st3) h3 in
      let (named, n1, q1) = request_name-ok st0 e1 in
      let (local_, q2) = throw_unless-true _ _ st1 e2 in
      let (input, n2, q3) = request_name-ok st2 e3 in
      let same : st3 ≡ record st { request = input } =
        q3 ∙ ap (λ (s : ThreadState b). record s { request = input }) (q2 ∙ q1) in
      (
        named,
        short_name,
        input,
        (run_query b sr short_name st3).1,
        n1 ∙ ap (λ k. ok (k, named)) (name_of_eq _ _ local_),
        sym (ap (λ (s : ThreadState b). sr.bin_to_name s.request) (q2 ∙ q1)) ∙ n2,
        ap (run_query b sr short_name) (sym same)
            ∙ ap (λ r. (r, (run_query b sr short_name st3).1)) e4,
        h4,
      )
    where
      name_of_eq : (n m : ℕ) → (n == m) ≡ true → n ≡ m
      name_of_eq n m e = ground arith

  -- A request without a fork is served, and the thread still has its session.
  run_request-Served :
      (session : b.QuerySession) (status : FillStatus) (request_bin request rest : Bytes)
      (st : ThreadState b) {st1 : ThreadState b}
      → sr.bin_to_input_buffer request_bin ≡ ok (request, rest)
      → st.query_session ≡ some session
      → st.fill_status ≡ status
      → run_request b sr request st ≡ (ok false, st1)
      → SameSession st st1
        × ((n : ℕ) (replies : List Bytes) (st' : ThreadState b)
            → Served b sr session status n rest st1 replies st'
            → Served b sr session status (suc n) request_bin st (st1.reply ∷ replies) st')
  run_request-Served session status request_bin request rest st split es ef h =
      let (named, short_name, input, s2, n1, n2, ran, fork) = run_request-served request st h in
      let with_input : SameSession st (record st { request = input }) = record {
        session = refl;
        status = refl;
        bin = refl;
      } in
      let kept : SameSession st s2 = SameSession-trans with_input (
        subst (λ r. SameSession (record st { request = input }) r.1) ran
          (run_query-SameSession b sr short_name (record st { request = input }))) in
      let (found, left) =
        did_fork-status session status s2 (kept.session ∙ es) (kept.status ∙ ef) fork in
      (
        SameSession-trans kept
            (subst (λ r. SameSession s2 r.1) fork (did_fork-SameSession b sr s2)),
        λ n replies st' more.
            subst (λ reply. Served b sr session status (suc n) request_bin st (reply ∷ replies) st')
              (sym (ap (λ (s : ThreadState b). s.reply) left))
              (served short_name split n1 n2 es ef ran found
                (subst (λ s. Served b sr session status n rest s replies st') left more)),
      )

  pub run_requests-Served :
      (session : b.QuerySession) (status : FillStatus) (n : ℕ) (request_bin result : Bytes)
      (st : ThreadState b) {st' : ThreadState b} {reply : Bytes}
      → st.query_session ≡ some session
      → st.fill_status ≡ status
      → run_requests b sr n request_bin result st ≡ (ok (some reply), st')
      → (replies : List Bytes) × Served b sr session status n request_bin st replies st'
        × (length replies ≡ n)
        × (reply ≡ result ++ pack_all replies)
  unfolding run_requests pack_all
  run_requests-Served session status zero request_bin result st {st'} {reply} es ef h = (
    [],
    subst (λ s. Served b sr session status 0 request_bin st [] s) (ap (λ r. r.1) h)
        (none_served request_bin st),
    refl,
    let same = ok-injective (ap (λ r. r.0) h) in
        let same' : result ≡ reply = cc in sym same' ∙ sym (append-nil result),
  )
  run_requests-Served session status (suc n) request_bin result st {st'} es ef h =
      let (p, e1, h1) = after_call-ok _ (sr.bin_to_input_buffer request_bin, st) h in
      let (forked, e2, h2) = after_call-ok _ (run_request b sr p.0 st) h1 in
      let st1 = (run_request b sr p.0 st).1 in
      elim (Bool-cases forked) [
        | inl yes_ ↦ absurd (let clash = ok-injective (ap (λ r. r.0) (rw yes_ at h2)) in cc)
        | inr no_ ↦
            let (same, serve) =
              run_request-Served session status request_bin p.0 p.1 st e1 es ef
                (ap (λ r. (r, st1)) (e2 ∙ ap ok no_)) in
            let (replies, rest, len, all) =
              run_requests-Served session status n p.1 (result ++ pack b sr st1.reply) st1
                (same.session ∙ es) (same.status ∙ ef) (rw no_ at h2) in
            (
              st1.reply ∷ replies,
              serve n replies st' rest,
              ap suc len,
              all ∙ append_assoc result (pack b sr st1.reply) (pack_all replies),
            )
      ]

-- ===== src/Connection/Closed.antt =====
-- The client of a connection hears of its closing once, and of nothing afterwards.
use history_tools.Common.{
  ◌≡◌, inl, inr, refl, ◌∙◌, Bool, true, false, Result, ok, err, arith, Bool-cases,
}
use history_tools.Connection.State.{
  Callbacks, Connection, Completion, read_done, write_done, failed, complete, close, after_abi,
  after_result, accept_abi, receive_result, parse_abi, call_client,
}

module _ (cb : Callbacks) where
  -- Completions that arrive one after the other.
  pub data Run : Connection cb → Connection cb → Type 0 where
    finished : (c : Connection cb) → Run c c
    completed :
        {c c' : Connection cb} (event : Completion cb) → Run (complete cb event c) c' → Run c c'

  -- Nothing is told to the client.
  pub record Silent (c c' : Connection cb) : Type 0 where
    pub unset : c'.has_callbacks ≡ false
    pub same : c'.client ≡ c.client

  close-Silent :
      (retry : Bool) (c : Connection cb) → c.has_callbacks ≡ false → Silent c (close cb retry c)
  unfolding close
  close-Silent retry c h = record { unset = refl; same = rw h refl }

  after_result-Silent :
      (r : Result cb.Message) (c : Connection cb)
      → c.has_callbacks ≡ false
      → Silent c (after_result cb (receive_result cb r c))
  unfolding after_result receive_result
  after_result-Silent (err e) c h = close-Silent false c h
  after_result-Silent (ok message) c h = simp h (record { unset = refl; same = refl })

  after_abi-Silent :
      (r : Result cb.Abi) (c : Connection cb)
      → c.has_callbacks ≡ false
      → Silent c (after_abi cb (accept_abi cb r c))
  unfolding after_abi accept_abi
  after_abi-Silent (err e) c h = close-Silent false c h
  after_abi-Silent (ok abi) c h = simp h (record { unset = refl; same = refl })

  complete-Silent :
      (event : Completion cb) (c : Connection cb)
      → c.has_callbacks ≡ false
      → Silent c (complete cb event c)
  unfolding complete
  complete-Silent write_done c h = record { unset = h; same = refl }
  complete-Silent failed c h = close-Silent true c h
  complete-Silent (read_done data_) c h = elim (Bool-cases c.have_abi) [
    | inl yes_ ↦ simp yes_ (after_result-Silent (cb.from_bin data_) c h)
    | inr no_ ↦ simp no_ (after_abi-Silent (parse_abi cb data_) c h)
  ]

  -- Once the connection has dropped its callbacks, no completion that still arrives changes the
  -- client or brings them back.
  pub Run-Silent : {c c' : Connection cb} → Run c c' → c.has_callbacks ≡ false → Silent c c'
  Run-Silent (finished c) h = record { unset = h; same = refl }
  Run-Silent (completed {c} event run) h =
      let one = complete-Silent event c h in
      let later = Run-Silent run one.unset in
      record { unset = later.unset; same = later.same ∙ one.same }

  -- Where a client may be: its connection is open, or the last that it was told is the closing.
  pub data Told (c : Connection cb) : Type 0 where
    open_still : c.has_callbacks ≡ true → Told c
    told_closed :
        (retry : Bool) (client : cb.Client)
        → c.has_callbacks ≡ false
        → c.client ≡ cb.closed retry client
        → Told c

  close-Told : (retry : Bool) (c : Connection cb) → c.has_callbacks ≡ true → Told (close cb retry c)
  unfolding close
  close-Told retry c h = told_closed retry c.client refl (rw h refl)

  after_result-Told :
      (r : Result Bool × Connection cb) → r.1.has_callbacks ≡ true → Told (after_result cb r)
  unfolding after_result
  after_result-Told (err e, c) h = close-Told false c h
  after_result-Told (ok false, c) h = close-Told false c h
  after_result-Told (ok true, c) h = open_still h

  after_abi-Told :
      (r : Result (Unit {0}) × Connection cb) → r.1.has_callbacks ≡ true → Told (after_abi cb r)
  unfolding after_abi
  after_abi-Told (err e, c) h = close-Told false c h
  after_abi-Told (ok done, c) h = open_still h

  receive_result-open :
      (r : Result cb.Message) (c : Connection cb)
      → c.has_callbacks ≡ true
      → (receive_result cb r c).1.has_callbacks ≡ true
  unfolding receive_result call_client
  receive_result-open (err e) c h = h
  receive_result-open (ok message) c h = ground arith

  accept_abi-open :
      (r : Result cb.Abi) (c : Connection cb)
      → c.has_callbacks ≡ true
      → (accept_abi cb r c).1.has_callbacks ≡ true
  unfolding accept_abi call_client
  accept_abi-open (err e) c h = h
  accept_abi-open (ok abi) c h = ground arith

  complete-Told :
      (event : Completion cb) (c : Connection cb)
      → c.has_callbacks ≡ true
      → Told (complete cb event c)
  unfolding complete
  complete-Told write_done c h = open_still h
  complete-Told failed c h = close-Told true c h
  complete-Told (read_done data_) c h = elim (Bool-cases c.have_abi) [
    | inl yes_ ↦ simp yes_ (
        after_result-Told (receive_result cb (cb.from_bin data_) c)
          (receive_result-open (cb.from_bin data_) c h))
    | inr no_ ↦ simp no_ (
        after_abi-Told (accept_abi cb (parse_abi cb data_) c)
          (accept_abi-open (parse_abi cb data_) c h))
  ]

  Told-later :
      {c c' : Connection cb} → Told c → Run c c' → (c.has_callbacks ≡ true → Told c') → Told c'
  Told-later (open_still h) run later = later h
  Told-later (told_closed retry client h e) run later =
      let silent = Run-Silent run h in told_closed retry client silent.unset (silent.same ∙ e)

  -- Whatever completions an open connection has: it is open still, or its callbacks are dropped and
  -- the last that the client was told is that it is closed.
  pub Run-Told : {c c' : Connection cb} → Run c c' → c.has_callbacks ≡ true → Told c'
  Run-Told (finished c) h = open_still h
  Run-Told (completed {c} event run) h = Told-later (complete-Told event c h) run (Run-Told run)

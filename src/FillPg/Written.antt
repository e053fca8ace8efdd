-- ===== src/FillPg/Written.antt =====
-- What the rows of a block do to the session: they reach the streams, and nothing else that the
-- session's invariant speaks of.
use history_tools.Common.{
  ℕ, ◌≡◌, ◌≢◌, refl, ap, ◌∙◌, List, [], ◌∷◌, Bytes, codes, Option, none, some, ok, >>=-eq-ok, arith,
  All, Bool-cases, inl, inr, or_throw, ok-injective, subst,
}
use history_tools.SqlConverter.Escape.{FieldKind}
use history_tools.SqlConverter.Types.{AbiType, bytes_eq}
use history_tools.SqlConverter.Value.{struct_values, variant_values, row_values}
use history_tools.FillPg.Database.{received_block}
use history_tools.FillPg.State.{
  Stream, Session, Services, DeltaRow, TableDelta, Trace, plain, with_failed, BlocksResult,
}
use history_tools.FillPg.Rows.{
  append_line, write_stream, get_type, as_struct, as_variant, is_row_type, receive_block,
  write_rows, write_table_delta, receive_deltas, write_trace_row, write_transaction_trace,
  next_ordinal, trace_passes, receive_traces_from, receive_traces, handle_block, receive_header,
}
use history_tools.FillPg.Blocks.{StreamsApart}

-- `s'` is `s` with more lines in its streams.
pub record Written (s s' : Session) : Type 0 where
  pub same_tables : s'.tables ≡ s.tables
  pub same_first : s'.first ≡ s.first
  pub same_config : s'.config ≡ s.config
  pub apart : StreamsApart s.table_streams → StreamsApart s'.table_streams

Written-refl : (s : Session) → Written s s
Written-refl s = record {
  same_tables = refl;
  same_first = refl;
  same_config = refl;
  apart = λ h. h;
}

Written-trans : {s t u : Session} → Written s t → Written t u → Written s u
Written-trans p q = record {
  same_tables = q.same_tables ∙ p.same_tables;
  same_first = q.same_first ∙ p.same_first;
  same_config = q.same_config ∙ p.same_config;
  apart = λ h. q.apart (p.apart h);
}

append_line-StreamsApart :
    (name line : Bytes) (streams : List Stream)
    → name ≢ received_block
    → StreamsApart streams
    → StreamsApart (append_line name line streams)
unfolding append_line
append_line-StreamsApart name line [] hn h = (hn, tt)
append_line-StreamsApart name line ((n, lines) ∷ streams) hn (hs, h) =
    elim (Bool-cases (bytes_eq n name)) [
      | inl e ↦ rw e (hs, h)
      | inr e ↦ rw e (hs, append_line-StreamsApart name line streams hn h)
    ]

write_stream-Written :
    (sv : Services) (block_num : ℕ) (name : Bytes) (values : List Bytes) (s : Session)
    → name ≢ received_block
    → Written s (write_stream sv block_num name values s)
unfolding write_stream
write_stream-Written sv block_num name values s hn = record {
  same_tables = refl;
  same_first = refl;
  same_config = refl;
  apart = append_line-StreamsApart name (sv.join values (codes "\t")) s.table_streams hn;
}

first_byte : Bytes → ℕ
first_byte [] = 0
first_byte (c ∷ s) = c

receive_block-Written :
    (sv : Services) (block_num block_id : ℕ) (bin : Bytes) (s : Session) {s' : Session}
    → receive_block sv block_num block_id bin s ≡ ok s'
    → Written s s'
unfolding receive_block first_byte
receive_block-Written sv block_num block_id bin s h =
    let (t, _, r) = >>=-eq-ok (get_type s (codes "signed_block_header")) _ h in
    let (fs, _, r2) = >>=-eq-ok (or_throw (as_struct t) "not a struct") _ r in
    let ((vs, rest), _, r3) =
      >>=-eq-ok (struct_values sv.library s.converter fs FieldKind.table_field bin) _ r2 in
    subst (Written s) (ok-injective r3)
      (write_stream-Written sv block_num _ _ s (λ e. omega (arith, ap first_byte e)))

write_rows-Written :
    (sv : Services) (block_num : ℕ) (name : Bytes) (type : AbiType) (rows : List DeltaRow)
    (s : Session) {s' : Session}
    → name ≢ received_block
    → write_rows sv block_num name type rows s ≡ ok s'
    → Written s s'
unfolding write_rows
write_rows-Written sv block_num name type [] s hn h =
    subst (Written s) (ok-injective h) (Written-refl s)
write_rows-Written sv block_num name type (row ∷ rows) s hn h =
    let ((vs, rest), _, r) =
      >>=-eq-ok (row_values sv.library s.converter type FieldKind.table_field row.bin) _ h in
    Written-trans (write_stream-Written sv block_num name _ s hn)
      (write_rows-Written sv block_num name type rows _ hn r)

write_table_delta-Written :
    (sv : Services) (block_num : ℕ) (d : TableDelta) (s : Session) {s' : Session}
    → d.name ≢ received_block
    → write_table_delta sv block_num d s ≡ ok s'
    → Written s s'
unfolding write_table_delta
write_table_delta-Written sv block_num d s hn h =
    let (t, _, r) = >>=-eq-ok (get_type s d.name) _ h in
    elim (Bool-cases (is_row_type t)) [
      | inl e ↦ write_rows-Written sv block_num d.name t d.rows s hn (rw e at r)
      | inr e ↦ absurd (ground (arith, r))
    ]

receive_deltas-Written :
    (sv : Services) (block_num : ℕ) (ds : List TableDelta) (s : Session) {s' : Session}
    → All (λ (d : TableDelta). d.name ≢ received_block) ds
    → receive_deltas sv block_num ds s ≡ ok s'
    → Written s s'
unfolding receive_deltas
receive_deltas-Written sv block_num [] s hn h = subst (Written s) (ok-injective h) (Written-refl s)
receive_deltas-Written sv block_num (d ∷ ds) s (hn, hs) h =
    let (t, e, r) = >>=-eq-ok (write_table_delta sv block_num d s) _ h in
    Written-trans (write_table_delta-Written sv block_num d s hn e)
      (receive_deltas-Written sv block_num ds t hs r)

write_trace_row-Written :
    (sv : Services) (block_num ordinal : ℕ) (bin : Bytes) (s : Session) {s' : Session}
    → write_trace_row sv block_num ordinal bin s ≡ ok s'
    → Written s s'
unfolding write_trace_row first_byte
write_trace_row-Written sv block_num ordinal bin s h =
    let (t, _, r) = >>=-eq-ok (get_type s (codes "transaction_trace")) _ h in
    let (fs, _, r2) = >>=-eq-ok (or_throw (as_variant t) "not a variant") _ r in
    let ((vs, rest), _, r3) =
      >>=-eq-ok (variant_values sv.library s.converter fs FieldKind.table_field bin) _ r2 in
    subst (Written s) (ok-injective r3)
      (write_stream-Written sv block_num _ _ s (λ e. omega (arith, ap first_byte e)))

write_transaction_trace-Written :
    (sv : Services) (block_num n : ℕ) (trace : Trace) (s : Session) {n' : ℕ} {s' : Session}
    → write_transaction_trace sv block_num n trace s ≡ ok (n', s')
    → Written s s'
unfolding write_transaction_trace
write_transaction_trace-Written sv block_num n (plain status actions bin) s {n'} {s'} h =
    let (t, e, r) = >>=-eq-ok (write_trace_row sv block_num (next_ordinal n) bin s) _ h in
    let same : t ≡ s' = cc in
    subst (Written s) same (write_trace_row-Written sv block_num (next_ordinal n) bin s e)
write_transaction_trace-Written sv block_num n (with_failed status actions bin failed) s {n'} {s'}
      h =
    elim (Bool-cases (trace_passes s failed)) [
      | inl p ↦
          let h' = rw p at h in
          let ((k, t), e, r) = >>=-eq-ok (write_transaction_trace sv block_num n failed s) _ h' in
          let (u, e2, r2) = >>=-eq-ok (write_trace_row sv block_num (next_ordinal k) bin t) _ r in
          let same : u ≡ s' = cc in
          Written-trans (write_transaction_trace-Written sv block_num n failed s e) (
            subst (Written t) same (write_trace_row-Written sv block_num (next_ordinal k) bin t e2))
      | inr p ↦
          let h' = rw p at h in let same : s ≡ s' = cc in subst (Written s) same (Written-refl s)
    ]

receive_traces_from-Written :
    (sv : Services) (block_num n : ℕ) (traces : List Trace) (s : Session) {s' : Session}
    → receive_traces_from sv block_num n traces s ≡ ok s'
    → Written s s'
unfolding receive_traces_from
receive_traces_from-Written sv block_num n [] s h =
    subst (Written s) (ok-injective h) (Written-refl s)
receive_traces_from-Written sv block_num n (trace ∷ traces) s h =
    elim (Bool-cases (trace_passes s trace)) [
      | inl p ↦
          let h' = rw p at h in
          let ((k, t), e, r) = >>=-eq-ok (write_transaction_trace sv block_num n trace s) _ h' in
          Written-trans (write_transaction_trace-Written sv block_num n trace s e)
            (receive_traces_from-Written sv block_num k traces t r)
      | inr p ↦ receive_traces_from-Written sv block_num n traces s (rw p at h)
    ]

receive_header-Written :
    (sv : Services) (block_num block_id : ℕ) (header : Option Bytes) (s : Session) {s' : Session}
    → receive_header sv block_num block_id header s ≡ ok s'
    → Written s s'
unfolding receive_header
receive_header-Written sv block_num block_id none s h =
    subst (Written s) (ok-injective h) (Written-refl s)
receive_header-Written sv block_num block_id (some bin) s h =
    receive_block-Written sv block_num block_id bin s h

-- The rows of a block go to the streams: the session's tables, first block and settings stay, and
-- no stream is that of the received blocks unless a delta is.
pub handle_block-Written :
    (sv : Services) (block_num block_id : ℕ) (result : BlocksResult) (s : Session) {s' : Session}
    → All (λ (d : TableDelta). d.name ≢ received_block) result.deltas
    → handle_block sv block_num block_id result s ≡ ok s'
    → Written s s'
unfolding handle_block receive_traces
handle_block-Written sv block_num block_id result s hd h =
    let (s1, e1, r1) = >>=-eq-ok (receive_header sv block_num block_id result.block_header s) _ h in
    let (s2, e2, r2) = >>=-eq-ok (receive_deltas sv block_num result.deltas s1) _ r1 in
    Written-trans (receive_header-Written sv block_num block_id result.block_header s e1) (
      Written-trans (receive_deltas-Written sv block_num result.deltas s1 hd e2)
        (receive_traces_from-Written sv block_num 0 result.traces s2 r2))

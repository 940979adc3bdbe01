-- ===== src/Wire/Closed.antt =====
-- `HandleConnection` of pkg/network/protocol.go once the client has closed the connection.
use portask.Prelude.{ℕ, zero, suc, ◌+◌, ◌%◌, ◌^◌, ◌<◌, ◌≡◌, refl, sym, ap, ◌∙◌, some, [], arith}
use portask.Prelude.Bytes.{read_full}
use portask.Wire.Frame.{
  wrap, plain, io_eof, failed_to_read_header, Services, Session, message_type_error, is_io_eof,
  is_recoverable_error,
}
use portask.Wire.Handler.{
  receive, process_message, handle_error, handle_round, handle_connection, running, finish,
  send_response, write_message, count_up,
}

module _ {M S : Type 0} (sv : Services M S) where
  -- What an error response leaves alone.
  abbrev after_eof : Session S → Session S
  after_eof s =
      (send_response sv message_type_error
        (sv.error_text (wrap failed_to_read_header (plain io_eof)))
        (record s { total_errors = count_up s.total_errors })).1

  process_message-eof :
      (s : Session S)
      → s.input ≡ []
      → process_message sv s ≡ (some (wrap failed_to_read_header (plain io_eof)), s)
  unfolding process_message receive read_full
  process_message-eof s e =
      ap (λ i. let (r, rest) = receive sv s.max_size i in finish sv r (record s { input = rest })) e
      ∙ ap (λ i. (some (wrap failed_to_read_header (plain io_eof)), record s { input = i })) (sym e)

  handle_round-eof : (s : Session S) → s.input ≡ [] → handle_round sv s ≡ running (after_eof s)
  unfolding handle_round handle_error is_io_eof is_recoverable_error
  handle_round-eof s e = rw (process_message-eof s e)

  input-after_eof : (s : Session S) → (after_eof s).input ≡ s.input
  unfolding send_response write_message
  input-after_eof s = ground arith

  storage-after_eof : (s : Session S) → (after_eof s).storage ≡ s.storage
  unfolding send_response write_message
  storage-after_eof s = ground arith

  errors-after_eof : (s : Session S) → (after_eof s).total_errors ≡ count_up s.total_errors
  unfolding send_response write_message
  errors-after_eof s = ground arith

  -- When the client has closed the connection, `HandleConnection` does not return for any number of
  -- rounds while its context is not done: each round counts one more error, and the store is left.
  pub handle_connection-closed :
      (n : ℕ) (s : Session S)
      → s.input ≡ []
      → s.total_errors < 2 ^ 64
      → (s' : Session S) × (handle_connection sv n s ≡ running s')
        × (s'.total_errors ≡ (s.total_errors + n) % 2 ^ 64)
        × (s'.storage ≡ s.storage)
  unfolding handle_connection
  handle_connection-closed zero s e h = (s, refl, omega arith, refl)
  handle_connection-closed (suc n) s e h =
      let (s', p, q, r) =
        handle_connection-closed n (after_eof s) (input-after_eof s ∙ e)
          (omega (arith, errors-after_eof s)) in
      (
        s',
        rw (handle_round-eof s e, handle_connection) p,
        omega (arith, q, errors-after_eof s),
        r ∙ storage-after_eof s,
      )

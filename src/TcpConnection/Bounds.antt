-- ===== src/TcpConnection/Bounds.antt =====
-- What a connection keeps: the socket takes the accepted data in order, the buffer stays within its
-- limit, and the close callback is called once.
use vox_orchestra.Prelude.{
  ℕ, zero, suc, ◌+◌, ◌≤◌, ◌≡◌, inl, inr, refl, sym, ap, ◌∙◌, true, false, List, [], ◌∷◌, ◌++◌,
  append_assoc, ltb, if◌then◌else◌, either_way, length, length-append, length-drop, take, drop,
  take-append-drop, Bytes, Option-cases, arith,
}
use vox_orchestra.FrameDecoder.{Decoder, FrameResult, ok, oversized, feed}
use vox_orchestra.SessionPipeline.{is_empty}
use vox_orchestra.TcpConnection.{
  Connection, new, close_in_loop, fail, send_in_loop, Call, sends, closes, perform, Callback,
  deliver, ReadResult, got, peer_closed, read_interrupted, read_would_block, read_failed, receive,
  handle_read, WriteResult, took, write_interrupted, write_would_block, write_failed, take_output,
  stop_writing, write_round, handle_write, Step, calls, readable, writable, fails, step, run,
}

pub record IsSound (c : Connection) : Type 0 where
  pub ordered : c.written ++ c.output_buffer ≡ c.accepted
  pub bounded : length c.output_buffer ≤ c.max_output_bytes
  pub counted : c.closes ≡ (if c.closed then 1 else 0)

pub new-IsSound : (max_frame max_output : ℕ) → IsSound (new max_frame max_output)
unfolding new
new-IsSound max_frame max_output = record { ordered = refl; bounded = omega arith; counted = refl }

close_in_loop-IsSound : (c : Connection) → IsSound c → IsSound (close_in_loop c)
unfolding close_in_loop
close_in_loop-IsSound c v =
    either_way IsSound c.closed c
      (record c { closed = true; writing = false; closes = c.closes + 1 }) (λ e. v)
      (λ e. record {
        ordered = v.ordered;
        bounded = v.bounded;
        counted = ground (arith, v.counted);
      })

fail-IsSound : (c : Connection) → IsSound c → IsSound (fail c)
unfolding fail
fail-IsSound c v =
    close_in_loop-IsSound (record c { errors = c.errors + 1 })
      (record { ordered = v.ordered; bounded = v.bounded; counted = v.counted })

le_of_ltb : {a b : ℕ} → ltb a b ≡ false → b ≤ a
le_of_ltb e = ground arith

send_in_loop-IsSound : (data_ : Bytes) (c : Connection) → IsSound c → IsSound (send_in_loop data_ c)
unfolding send_in_loop
send_in_loop-IsSound data_ c v =
    let full = ltb c.max_output_bytes (length c.output_buffer + length data_) in
    let longer : Connection = record c {
      output_buffer = c.output_buffer ++ data_;
      writing = true;
      accepted = c.accepted ++ data_;
    } in
    either_way IsSound c.closed c (if full then fail c else longer) (λ e. v)
      (λ e.
        either_way IsSound full (fail c) longer (λ f. fail-IsSound c v)
          (λ f. record {
            ordered =
                sym (append_assoc c.written c.output_buffer data_) ∙ ap (λ t. t ++ data_) v.ordered;
            bounded = omega (arith, length-append c.output_buffer data_, le_of_ltb f);
            counted = v.counted;
          }))

perform-IsSound : (xs : List Call) (c : Connection) → IsSound c → IsSound (perform xs c)
unfolding perform
perform-IsSound [] c v = v
perform-IsSound (sends data_ ∷ xs) c v = perform-IsSound xs _ (send_in_loop-IsSound data_ c v)
perform-IsSound (closes ∷ xs) c v = perform-IsSound xs _ (close_in_loop-IsSound c v)

module _ (react : Callback) where
  deliver-IsSound :
      (frames : List Bytes) (c : Connection) → IsSound c → IsSound (deliver react frames c)
  unfolding deliver
  deliver-IsSound [] c v = v
  deliver-IsSound (frame ∷ frames) c v = deliver-IsSound frames _ (
      perform-IsSound (react frame) (record c { messages = c.messages ++ frame ∷ [] })
        (record { ordered = v.ordered; bounded = v.bounded; counted = v.counted }))

  receive-IsSound : (chunk : Bytes) (c : Connection) → IsSound c → IsSound (receive react chunk c).0
  unfolding receive
  receive-IsSound chunk c v = elim (Option-cases (feed c.decoder chunk [])) [
    | inl e ↦ rw (receive, e) v
    | inr ((d, ok, frames), e) ↦ rw (receive, e) (delivered d frames)
    | inr ((d, oversized, frames), e) ↦ rw (receive, e) (fail-IsSound _ (delivered d frames))
  ]
    where
      delivered :
          (d : Decoder) (frames : List Bytes)
          → IsSound (deliver react frames (record c { decoder = d }))
      delivered d frames =
          deliver-IsSound frames (record c { decoder = d })
            (record { ordered = v.ordered; bounded = v.bounded; counted = v.counted })

  result-IsSound :
      (r : FrameResult) {x y : Connection}
      → IsSound x
      → IsSound y
      → IsSound (elim r [ ok ↦ x | oversized ↦ y ])
  result-IsSound ok v w = v
  result-IsSound oversized v w = w

  handle_read-IsSound :
      (rs : List ReadResult) (c : Connection) → IsSound c → IsSound (handle_read react rs c)
  unfolding handle_read
  handle_read-IsSound [] c v = v
  handle_read-IsSound (got chunk ∷ rs) c v =
      let next = receive-IsSound chunk c v in
      either_way IsSound c.closed c _ (λ e. v)
        (λ e. result-IsSound (receive react chunk c).1 (handle_read-IsSound rs _ next) next)
  handle_read-IsSound (peer_closed ∷ rs) c v = close_in_loop-IsSound c v
  handle_read-IsSound (read_interrupted ∷ rs) c v = handle_read-IsSound rs c v
  handle_read-IsSound (read_would_block ∷ rs) c v = v
  handle_read-IsSound (read_failed ∷ rs) c v = close_in_loop-IsSound c v

take_output-IsSound : (n : ℕ) (c : Connection) → IsSound c → IsSound (take_output n c)
unfolding take_output
take_output-IsSound n c v = record {
  ordered =
      append_assoc c.written (take n c.output_buffer) (drop n c.output_buffer)
      ∙ ap (λ t. c.written ++ t) (take-append-drop n c.output_buffer)
      ∙ v.ordered;
  bounded = omega (arith, length-drop n c.output_buffer, v.bounded);
  counted = v.counted;
}

write_round-IsSound : (r : WriteResult) (c : Connection) → IsSound c → IsSound (write_round r c).0
unfolding write_round
write_round-IsSound (took zero) c v = close_in_loop-IsSound c v
write_round-IsSound (took (suc n)) c v = take_output-IsSound (suc n) c v
write_round-IsSound write_interrupted c v = v
write_round-IsSound write_would_block c v = v
write_round-IsSound write_failed c v = close_in_loop-IsSound c v

stop_writing-IsSound : (c : Connection) → IsSound c → IsSound (stop_writing c)
unfolding stop_writing
stop_writing-IsSound c v = record { ordered = v.ordered; bounded = v.bounded; counted = v.counted }

handle_write-IsSound :
    (rs : List WriteResult) (c : Connection) → IsSound c → IsSound (handle_write rs c)
unfolding handle_write
handle_write-IsSound [] c v =
    either_way IsSound (is_empty c.output_buffer) (stop_writing c) c (λ e. stop_writing-IsSound c v)
      (λ e. v)
handle_write-IsSound (r ∷ rs) c v =
    let next = write_round-IsSound r c v in
    let rest = handle_write rs (write_round r c).0 in
    either_way IsSound (is_empty c.output_buffer) (stop_writing c)
      (if (write_round r c).1 then rest else (write_round r c).0) (λ e. stop_writing-IsSound c v)
      (λ e.
        either_way IsSound (write_round r c).1 rest (write_round r c).0
          (λ f. handle_write-IsSound rs _ next) (λ f. next))

module _ (react : Callback) where
  step-IsSound : (x : Step) (c : Connection) → IsSound c → IsSound (step react x c)
  unfolding step
  step-IsSound (calls call) c v = perform-IsSound (call ∷ []) c v
  step-IsSound (readable rs) c v = handle_read-IsSound react rs c v
  step-IsSound (writable rs) c v =
      either_way IsSound c.closed c (handle_write rs c) (λ e. v) (λ e. handle_write-IsSound rs c v)
  step-IsSound fails c v = close_in_loop-IsSound c v

  -- Whatever is sent and read, what the message callback calls and how much each write takes: the
  -- bytes that the socket took are the accepted data, in order, up to what still waits in the buffer;
  -- the buffer is never longer than its limit; and the close callback is called once where the
  -- connection is closed, and not before.
  pub run-IsSound : (xs : List Step) (c : Connection) → IsSound c → IsSound (run react xs c)
  unfolding run
  run-IsSound [] c v = v
  run-IsSound (x ∷ xs) c v = run-IsSound xs _ (step-IsSound x c v)

-- ===== src/TcpConnection/Reading.antt =====
-- What the reads of a connection deliver, and what a client loses that ends its half of the stream.
use vox_orchestra.Prelude.{
  ◌+◌, ◌≡◌, inl, inr, refl, ◌∙◌, true, false, List, [], ◌∷◌, ◌++◌, ltb, either_way, length, map,
  Bytes, Option-cases, arith,
}
use vox_orchestra.FrameDecoder.{Decoder, FrameResult, ok, oversized, feed}
use vox_orchestra.TcpConnection.{
  Connection, close_in_loop, fail, send_in_loop, Call, sends, closes, perform, Callback, deliver,
  ReadResult, got, peer_closed, read_interrupted, read_would_block, read_failed, receive,
  handle_read, handle_write, Step, calls, readable, writable, fails, step, run,
}

-- The socket takes nothing, and what is closed stays closed.
record IsQuiet (c c' : Connection) : Type 0 where
  untouched : c'.written ≡ c.written
  shut : c.closed ≡ true → c'.closed ≡ true

still : (c : Connection) → IsQuiet c c
still c = record { untouched = refl; shut = λ e. e }

onward : (c c' c'' : Connection) → IsQuiet c c' → IsQuiet c' c'' → IsQuiet c c''
onward c c' c'' v w = record {
  untouched = w.untouched ∙ v.untouched;
  shut = λ e. w.shut (v.shut e);
}

close_in_loop-IsQuiet : (c : Connection) → IsQuiet c (close_in_loop c)
unfolding close_in_loop
close_in_loop-IsQuiet c =
    either_way (IsQuiet c) c.closed c
      (record c { closed = true; writing = false; closes = c.closes + 1 }) (λ e. still c)
      (λ e. record { untouched = refl; shut = λ f. refl })

fail-IsQuiet : (c : Connection) → IsQuiet c (fail c)
unfolding fail
fail-IsQuiet c =
    onward c _ _ (record { untouched = refl; shut = λ e. e })
      (close_in_loop-IsQuiet (record c { errors = c.errors + 1 }))

send_in_loop-IsQuiet : (data_ : Bytes) (c : Connection) → IsQuiet c (send_in_loop data_ c)
unfolding send_in_loop
send_in_loop-IsQuiet data_ c =
    either_way (IsQuiet c) c.closed c _ (λ e. still c)
      (λ e.
        either_way (IsQuiet c) (ltb c.max_output_bytes (length c.output_buffer + length data_))
          (fail c) _ (λ f. fail-IsQuiet c) (λ f. record { untouched = refl; shut = λ g. g }))

perform-IsQuiet : (xs : List Call) (c : Connection) → IsQuiet c (perform xs c)
unfolding perform
perform-IsQuiet [] c = still c
perform-IsQuiet (sends data_ ∷ xs) c =
    onward c _ _ (send_in_loop-IsQuiet data_ c) (perform-IsQuiet xs (send_in_loop data_ c))
perform-IsQuiet (closes ∷ xs) c =
    onward c _ _ (close_in_loop-IsQuiet c) (perform-IsQuiet xs (close_in_loop c))

closed_at_end : (c : Connection) → (close_in_loop c).closed ≡ true
unfolding close_in_loop
closed_at_end c = ground arith

abbrev IsShut : Connection → Type 0
IsShut c = c.closed ≡ true

result_closed :
    (r : FrameResult) (x y : Connection)
    → IsShut x
    → (r ≡ oversized → IsShut y)
    → IsShut (elim r [ ok ↦ x | oversized ↦ y ])
result_closed ok x y v w = v
result_closed oversized x y v w = w refl

module _ (react : Callback) where
  deliver-IsQuiet : (frames : List Bytes) (c : Connection) → IsQuiet c (deliver react frames c)
  unfolding deliver
  deliver-IsQuiet [] c = still c
  deliver-IsQuiet (frame ∷ frames) c =
      let told : Connection = record c { messages = c.messages ++ frame ∷ [] } in
      onward c told _ (record { untouched = refl; shut = λ e. e })
        (onward told _ _ (perform-IsQuiet (react frame) told)
          (deliver-IsQuiet frames (perform (react frame) told)))

  receive-IsQuiet : (chunk : Bytes) (c : Connection) → IsQuiet c (receive react chunk c).0
  unfolding receive
  receive-IsQuiet chunk c = elim (Option-cases (feed c.decoder chunk [])) [
    | inl e ↦ rw (receive, e) (still c)
    | inr ((d, ok, frames), e) ↦ rw (receive, e) (delivered d frames)
    | inr ((d, oversized, frames), e) ↦
        rw (receive, e) (onward c _ _ (delivered d frames) (fail-IsQuiet _))
  ]
    where
      delivered :
          (d : Decoder) (frames : List Bytes)
          → IsQuiet c (deliver react frames (record c { decoder = d }))
      delivered d frames =
          onward c (record c { decoder = d }) _ (record { untouched = refl; shut = λ e. e })
            (deliver-IsQuiet frames (record c { decoder = d }))

  result-IsQuiet :
      (c : Connection) (r : FrameResult) {x y : Connection}
      → IsQuiet c x
      → IsQuiet c y
      → IsQuiet c (elim r [ ok ↦ x | oversized ↦ y ])
  result-IsQuiet c ok v w = v
  result-IsQuiet c oversized v w = w

  handle_read-IsQuiet : (rs : List ReadResult) (c : Connection) → IsQuiet c (handle_read react rs c)
  unfolding handle_read
  handle_read-IsQuiet [] c = still c
  handle_read-IsQuiet (got chunk ∷ rs) c =
      let next = receive-IsQuiet chunk c in
      either_way (IsQuiet c) c.closed c _ (λ e. still c)
        (λ e.
          result-IsQuiet c (receive react chunk c).1
            (onward c _ _ next (handle_read-IsQuiet rs (receive react chunk c).0)) next)
  handle_read-IsQuiet (peer_closed ∷ rs) c = close_in_loop-IsQuiet c
  handle_read-IsQuiet (read_interrupted ∷ rs) c = handle_read-IsQuiet rs c
  handle_read-IsQuiet (read_would_block ∷ rs) c = still c
  handle_read-IsQuiet (read_failed ∷ rs) c = close_in_loop-IsQuiet c

  step-closed : (x : Step) (c : Connection) → c.closed ≡ true → IsQuiet c (step react x c)
  unfolding step
  step-closed (calls call) c e = perform-IsQuiet (call ∷ []) c
  step-closed (readable rs) c e = handle_read-IsQuiet rs c
  step-closed (writable rs) c e =
      either_way (IsQuiet c) c.closed c (handle_write rs c) (λ f. still c) (λ f. cc (e, f))
  step-closed fails c e = close_in_loop-IsQuiet c

  run-closed : (xs : List Step) (c : Connection) → c.closed ≡ true → IsQuiet c (run react xs c)
  unfolding run
  run-closed [] c e = still c
  run-closed (x ∷ xs) c e =
      let v = step-closed x c e in onward c _ _ v (run-closed xs (step react x c) (v.shut e))

  fail-closed : (c : Connection) → (fail c).closed ≡ true
  unfolding fail
  fail-closed c = closed_at_end (record c { errors = c.errors + 1 })

  receive-oversized :
      (chunk : Bytes) (c : Connection)
      → (receive react chunk c).1 ≡ oversized
      → (receive react chunk c).0.closed ≡ true
  unfolding receive
  receive-oversized chunk c h = elim (Option-cases (feed c.decoder chunk [])) [
    | inl e ↦ absurd (cc (rw (receive, e) at h))
    | inr ((d, ok, frames), e) ↦ absurd (cc (rw (receive, e) at h))
    | inr ((d, oversized, frames), e) ↦
        rw (receive, e) (fail-closed (deliver react frames (record c { decoder = d })))
  ]

  ended :
      (chunks : List Bytes) (c : Connection)
      → (handle_read react (map got chunks ++ peer_closed ∷ []) c).closed ≡ true
  unfolding handle_read
  ended [] c = closed_at_end c
  ended (chunk ∷ chunks) c =
      let next = (receive react chunk c).0 in
      either_way IsShut c.closed c _ (λ e. e)
        (λ e.
          result_closed (receive react chunk c).1 _ _ (ended chunks next)
            (λ f. receive-oversized chunk c f))

  -- A client that sends requests and ends its half of the stream, so that one reading of the socket
  -- finds both, gets no answer: whatever the message callback sends, the connection is closed, and
  -- the socket never takes a byte again.
  pub half_closed :
      (chunks : List Bytes) (xs : List Step) (c : Connection)
      → let c' = run react (readable (map got chunks ++ peer_closed ∷ []) ∷ xs) c in
        (c'.closed ≡ true) × (c'.written ≡ c.written)
  unfolding run step
  half_closed chunks xs c =
      let rs = map got chunks ++ peer_closed ∷ [] in
      let e = ended chunks c in
      let v = run-closed xs (handle_read react rs c) e in
      (v.shut e, v.untouched ∙ (handle_read-IsQuiet rs c).untouched)

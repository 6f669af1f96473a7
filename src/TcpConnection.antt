-- ===== src/TcpConnection.antt =====
-- One client's connection: libs/network/src/tcp_connection.cpp and
-- libs/network/include/voxorchestra/network/tcp_connection.hpp, on the thread of the event loop. What the
-- reads and writes of the socket give is an argument, as is what the message callback does with the
-- connection. The callback for protocol errors leaves the connection alone, as that of
-- apps/edge_gateway/edge_gateway.cpp does. Polling and the descriptor are left out.
pub mod Bounds
pub mod Reading
mod Tests
use vox_orchestra.Prelude.{
  ℕ, zero, suc, ◌+◌, Bool, true, false, Option, none, some, List, [], ◌∷◌, ◌++◌, ltb, ◌==◌,
  if◌then◌else◌, length, take, drop, Bytes,
}
use vox_orchestra.FrameDecoder.{Decoder, FrameResult, ok, oversized, feed}
use vox_orchestra.FrameDecoder as FrameDecoder
use vox_orchestra.SessionPipeline.{is_empty}

-- The members, and below them what the connection has done so far: the data it accepted and the
-- bytes the socket took, the frames it gave to the message callback, and its calls of the other two
-- callbacks.
pub record Connection : Type 0 where
  pub closed : Bool
  pub writing : Bool
  pub decoder : Decoder
  pub output_buffer : Bytes
  pub max_output_bytes : ℕ
  pub accepted : Bytes
  pub written : Bytes
  pub messages : List Bytes
  pub errors : ℕ
  pub closes : ℕ

unfoldable pub new : ℕ → ℕ → Connection
unfolding FrameDecoder.new
new max_frame max_output = record {
  closed = false;
  writing = false;
  decoder = FrameDecoder.new max_frame;
  output_buffer = [];
  max_output_bytes = max_output;
  accepted = [];
  written = [];
  messages = [];
  errors = 0;
  closes = 0;
}

unfoldable pub close_in_loop : Connection → Connection
close_in_loop c =
    if c.closed then c else record c { closed = true; writing = false; closes = c.closes + 1 }

-- `on_protocol_error_`, and then `close_in_loop`.
unfoldable pub fail : Connection → Connection
unfolding close_in_loop
fail c = close_in_loop (record c { errors = c.errors + 1 })

unfoldable pub send_in_loop : Bytes → Connection → Connection
unfolding fail
send_in_loop data_ c =
    if c.closed
    then c
    else if ltb c.max_output_bytes (length c.output_buffer + length data_)
    then fail c
    else record c {
      output_buffer = c.output_buffer ++ data_;
      writing = true;
      accepted = c.accepted ++ data_;
    }

-- What a callback may call.
pub data Call : Type 0 where
  sends : Bytes → Call
  closes : Call

unfoldable pub perform : List Call → Connection → Connection
unfolding send_in_loop close_in_loop
perform [] c = c
perform (sends data_ ∷ calls) c = perform calls (send_in_loop data_ c)
perform (closes ∷ calls) c = perform calls (close_in_loop c)

-- What the message callback does with a frame.
abbrev pub Callback : Type 0
Callback = Bytes → List Call

unfoldable pub deliver : Callback → List Bytes → Connection → Connection
unfolding perform
deliver react [] c = c
deliver react (frame ∷ frames) c =
    deliver react frames (perform (react frame) (record c { messages = c.messages ++ frame ∷ [] }))

-- What one `read` gives: bytes, the end of the stream, or an error.
pub data ReadResult : Type 0 where
  got : Bytes → ReadResult
  peer_closed read_interrupted read_would_block read_failed : ReadResult

-- The frames of a chunk are delivered; an oversized one ends the connection.
unfoldable pub receive : Callback → Bytes → Connection → Connection × FrameResult
unfolding deliver fail feed
receive react chunk c = elim (feed c.decoder chunk []) [
  | none ↦ (c, ok)
  | some (d, ok, frames) ↦ (deliver react frames (record c { decoder = d }), ok)
  | some (d, oversized, frames) ↦
      (fail (deliver react frames (record c { decoder = d })), oversized)
]

-- The results of the reads, in order; where they end, the next read would block. The read of a
-- connection that the callback has closed fails, as its descriptor is -1.
unfoldable pub handle_read : Callback → List ReadResult → Connection → Connection
unfolding receive close_in_loop
handle_read react [] c = c
handle_read react (got chunk ∷ rs) c =
    let (c', result) = receive react chunk c in
    let rest = handle_read react rs c' in
    if c.closed then c else elim result [ ok ↦ rest | oversized ↦ c' ]
handle_read react (peer_closed ∷ rs) c = close_in_loop c
handle_read react (read_interrupted ∷ rs) c = handle_read react rs c
handle_read react (read_would_block ∷ rs) c = c
handle_read react (read_failed ∷ rs) c = close_in_loop c

-- What one `write` gives: the number of bytes it took, or an error.
pub data WriteResult : Type 0 where
  took : ℕ → WriteResult
  write_interrupted write_would_block write_failed : WriteResult

unfoldable pub take_output : ℕ → Connection → Connection
take_output n c = record c {
  output_buffer = drop n c.output_buffer;
  written = c.written ++ take n c.output_buffer;
}

-- Nothing is left to write.
unfoldable pub stop_writing : Connection → Connection
stop_writing c = record c { writing = false }

-- One round of the loop, where there is something to write. The second part says whether the loop goes on.
unfoldable pub write_round : WriteResult → Connection → Connection × Bool
unfolding take_output close_in_loop
write_round (took zero) c = (close_in_loop c, false)
write_round (took (suc n)) c = (take_output (suc n) c, true)
write_round write_interrupted c = (c, true)
write_round write_would_block c = (c, false)
write_round write_failed c = (close_in_loop c, false)

-- The results of the writes, in order; where they end, the next write would block. A write to a
-- connection that is closed fails, which changes nothing.
unfoldable pub handle_write : List WriteResult → Connection → Connection
unfolding write_round stop_writing is_empty
handle_write [] c = if is_empty c.output_buffer then stop_writing c else c
handle_write (r ∷ rs) c =
    let (c', goes_on) = write_round r c in
    let rest = handle_write rs c' in
    if is_empty c.output_buffer then stop_writing c else if goes_on then rest else c'

-- What happens to a connection: a call from outside, or an event of the poller.
pub data Step : Type 0 where
  calls : Call → Step
  readable : List ReadResult → Step
  writable : List WriteResult → Step
  fails : Step

module _ (react : Callback) where
  unfoldable pub step : Step → Connection → Connection
  unfolding perform handle_read handle_write close_in_loop
  step (calls call) c = perform (call ∷ []) c
  step (readable rs) c = handle_read react rs c
  step (writable rs) c = if c.closed then c else handle_write rs c
  step fails c = close_in_loop c

  unfoldable pub run : List Step → Connection → Connection
  unfolding step
  run [] c = c
  run (x ∷ xs) c = run xs (step x c)

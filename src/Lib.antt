-- ===== src/Lib.antt =====
-- The verification library of VoxOrchestra: a voice assistant that is run as a set of processes.
-- A gateway reads requests, one JSON text to a line, and passes them to nodes; a node keeps tasks,
-- each with a backend of its own; a session runs a pipeline from speech to text, to an answer, to
-- sentences, to speech. This library models the parts that carry that logic and keep state.
--
--   * BoundedQueue: libs/common/include/voxorchestra/common/bounded_queue.hpp. The queue between two
--     stages of the pipeline. The record Queue has the fields of BoundedQueue; each method is one
--     function on it, since its body runs under the mutex. A wait takes as an argument the methods
--     that other threads run meanwhile.
--   * FrameDecoder: libs/network/src/frame_decoder.cpp. NdjsonFrameDecoder, which cuts a stream of
--     bytes into lines. `feed` is a loop on the buffer; its fuel is the length of the buffer and one,
--     and each round takes at least one byte out of it.
--   * SentenceChunker: libs/common/src/sentence_chunker.cpp. It cuts the answer of a language model
--     into sentences, on the bytes of UTF-8.
--   * SessionState: libs/session/src/session_state_machine.cpp. The states of a session, and the
--     trace of its steps.
--   * TaskRegistry: libs/task_registry/src/task_registry.cpp. The ids of the tasks and the limit on
--     their number. The 64-bit counter wraps around.
--   * TaskChannel: libs/runtime/src/task_channel.cpp. One task, with one request in flight at most. The
--     backend is a parameter: a function of the payload, the deadline and the flag that asks it to
--     stop. `inference` gives the lock away while the backend runs, so it takes the calls of other
--     threads as an argument.
--   * TaskRuntime: libs/runtime/src/task_runtime.cpp. The tasks of a node. It uses TaskRegistry for
--     the ids and TaskChannel for each task. Channels stand in a store, at addresses, as the code
--     shares them by pointer: a task that is taken out of the table can still have a call in flight.
--   * Protocol: libs/protocol/src/message_envelope.cpp. The message that all parts exchange, and its
--     JSON text. The JSON library is the record Json; what the round trip relies on is IsJson.
--   * Replies: apps/common/action_helpers.hpp. Acknowledgements and error replies.
--   * UnitManager: apps/common/unit_manager.cpp. The ids of all tasks, and the node that each task
--     lives on. It uses TaskRegistry and Protocol; what a node answers is a parameter.
--   * RuntimeNode: apps/common/runtime_node.cpp. The request handler of a node: each action is a call of
--     TaskRuntime, and its result is a reply.
--   * EdgeGateway: apps/edge_gateway/edge_gateway.cpp. What the gateway does with one frame of a client;
--     what the manager answers is a parameter.
--   * WavReader: libs/common/src/wav_reader.cpp. The reader of WAV files, on the bytes of the file. The
--     fuel of its loop is the length of the file and one; each round moves on by eight bytes.
--   * FakeAudioSink: backends/fake/include/voxorchestra/backend/fake/fake_audio_sink.hpp. The sink that
--     writes a WAV file; what the C library does is an argument of each method.
--   * SessionPipeline: libs/session/src/session_pipeline.cpp. One run, from the input to the frames that
--     are written. Listen, Answer and Run have the driving thread, phase by phase; between two
--     statements stands a Moment, in which time passes and other threads may call `cancel`. Speak has
--     the two worker threads and the joins, as a function of a schedule of steps. A run completes its
--     schedule by turns for all threads (Turns), as many as the work that is left: Progress shows that
--     they are enough. It uses BoundedQueue, SentenceChunker, SessionState and WavReader; back ends, the
--     router and the sink are parameters, and so are the frames that a back end makes of a sentence.
--   * Base64: libs/common/include/voxorchestra/common/base64.hpp.
--   * Dataplane: libs/dataplane/src/dataplane_event.cpp and libs/dataplane/src/event_channel.cpp. The
--     events that a node publishes, as messages of Protocol with audio in Base64, and the indices that
--     the publisher gives them. What the sockets do is left out.
--   * FakeBackends: backends/fake/include/voxorchestra/backend/fake/fake_asr_backend.hpp,
--     fake_llm_backend.hpp and fake_tts_backend.hpp. The events of one call of a deterministic back end.
--   * SessionNode: apps/session_node/session_node.cpp, in the build without ALSA. Sessions stand in a
--     store, at addresses, as the code shares them by pointer. Requests has `handle_request`; Steps has
--     `run_inference`, `serve_once` and `close`, and runs them in any order; Handled has what one
--     request may do, as a relation. What is left of a pipeline's run when its worker ends is an
--     argument; Outcome puts SessionPipeline's run there. A reply of a worker is taken to find room in
--     the pipe to the serving thread. It uses Protocol, Replies, SessionPipeline and SessionState.
--   * Rag: libs/rag/src/text_normalizer.cpp, libs/rag/src/knowledge_store.cpp and libs/rag/src/router.cpp. The
--     loops over a text take its length as fuel, since each round takes a byte at least. What the BM25
--     index ranks is a parameter, and so are the scores, of type double.
--   * TcpConnection: libs/network/src/tcp_connection.cpp. The connection of one client, over any order of
--     events; what the socket gives is an argument. It uses FrameDecoder.
--   * NetBackends: backends/net/src/net_backend_session.cpp. The call of a remote node: what the clock, other
--     threads and the sockets do in each round of its loop is an argument. It uses Dataplane.
--   * AsrNode: apps/asr_node/main.cpp, the class AsrNodeBackend, with FakeAudioSource of backends/fake. The
--     recogniser is a parameter, and so are the flag and the clock before each frame. It uses WavReader
--     and Base64, and NetBackends is its client.
--   * TtsNode: apps/tts_node/main.cpp, the class TtsNodeBackend. What the synthesizer tells, what each call of
--     the C library does and what play_alsa answers are arguments. It uses FakeAudioSink; in Heard its
--     files are the requests of an ASR node.
--   * LlmNode: apps/llm_node/main.cpp, the class LlmNodeBackend. The rounds of its waiting loop are a list,
--     which ends where the model is found to have ended.
--   * Prelude: lists, bytes, decimal numbers and dictionaries that these share. A dictionary is an
--     association list in which no key stands twice.
--
-- Text is a list of bytes. Numbers are natural numbers; sizes do not wrap, except for the counter of
-- TaskRegistry. Times are numbers of milliseconds, and a time limit is an integer.
--
-- Not modelled: the transport (ZeroMQ), the poller and the sockets, the back ends of vendors, the
-- options and loops of the processes, logging, and the vendored JSON library. The BM25 index,
-- whose scores are of type double, is not modelled. An exception of a backend in a task
-- channel is not modelled, nor is the sending of a request by a remote back end. In the pipeline,
-- an exception that is no std::exception and a thread that cannot be started are left out, and the
-- order of memory of the atomics is taken to be sequential.

pub mod Prelude
pub mod BoundedQueue
pub mod FrameDecoder
pub mod SentenceChunker
pub mod SessionState
pub mod TaskRegistry
pub mod TaskChannel
pub mod TaskRuntime
pub mod Protocol
pub mod Replies
pub mod UnitManager
pub mod RuntimeNode
pub mod EdgeGateway
pub mod WavReader
pub mod FakeAudioSink
pub mod SessionPipeline
pub mod Base64
pub mod Dataplane
pub mod FakeBackends
pub mod SessionNode
pub mod Rag
pub mod TcpConnection
pub mod NetBackends
pub mod AsrNode
pub mod TtsNode
pub mod LlmNode

-- ===== src/NetBackends.antt =====
-- The back ends that call a remote node: backends/net/src/net_backend_session.cpp,
-- backends/net/include/voxorchestra/backend/net/net_backend_session.hpp, and net_asr_backend.hpp,
-- net_llm_backend.hpp and net_tts_backend.hpp beside it. What the sockets bring and what the clock
-- shows in each round of the loop is an argument; samples are 16-bit words.
pub mod Samples
pub mod Driving
pub mod Replay
mod Tests
use vox_orchestra.Prelude.{
  ℕ, zero, suc, ◌+◌, ◌-◌, ◌*◌, ◌/◌, Bool, true, false, ◌&&◌, ◌||◌, Option, none, some, List, [],
  ◌∷◌, ◌++◌, leb, if◌then◌else◌, length, take, Bytes, bytes_eq, codes, utf8, to_string,
}
use vox_orchestra.Prelude.Fallible.{Result, returns, throws}
use vox_orchestra.Protocol.{Json}
use vox_orchestra.Base64.{encode}
use vox_orchestra.FakeAudioSink.{zeros, pcm_bytes}
use vox_orchestra.SessionPipeline.{Kind, k_partial, k_final, k_token, k_pcm, k_done, BackendEvent}
use vox_orchestra.Dataplane.{DataplaneEvent}

-- The members that the code below reads and writes, and the calls of the event callback so far.
pub record Session : Type 0 where
  pub cancelled : Bool
  pub rpc_pending : Bool
  pub seq : ℕ
  pub heard : List BackendEvent

unfoldable pub new : Session
new = record { cancelled = false; rpc_pending = false; seq = 0; heard = [] }

-- `cancel`; the call of the node is left out.
unfoldable pub cancel : Session → Session
cancel s = record s { cancelled = true }

unfoldable pub next_request_id : Bytes → Session → Session × Bytes
next_request_id stage s = (record s { seq = s.seq + 1 }, stage ++ to_string s.seq)

-- Words from bytes in the order of memory.
unfoldable pub words : Bytes → List ℕ
words [] = []
words (lo ∷ []) = []
words (lo ∷ hi ∷ bs) = (lo + hi * 256) ∷ words bs

-- `memcpy` of as many bytes as there are samples, into samples that are 0.
unfoldable pub copied : Bytes → List ℕ
unfolding zeros words
copied pcm = let size = length pcm / 2 in words (take size pcm ++ zeros (2 * size - size))

unfoldable pub kind_named : Bytes → Option Kind
unfolding bytes_eq
kind_named s =
    if bytes_eq s (codes "partial")
    then some k_partial
    else if bytes_eq s (codes "final")
    then some k_final
    else if bytes_eq s (codes "token")
    then some k_token
    else if bytes_eq s (codes "pcm")
    then some k_pcm
    else if bytes_eq s (codes "done")
    then some k_done
    else none

unfoldable pub to_backend_event : DataplaneEvent → Result Bytes BackendEvent
unfolding kind_named copied
to_backend_event e = elim (kind_named e.kind) [
  | none ↦ throws (utf8 "数据面事件类型未知: " ++ e.kind)
  | some kind ↦ returns (record { kind = kind; text = e.text; pcm = copied e.pcm })
]

-- The recogniser's members: the frames and, where the audio goes to the node, the samples so far.
pub record Recogniser : Type 0 where
  pub frame_count : ℕ
  pub samples : List ℕ

-- `set_event_callback` begins a session with this, as does `drive` where the call returns.
unfoldable pub silent : Recogniser
silent = record { frame_count = 0; samples = [] }

-- `kAsrPcmPayloadPrefix`.
unfoldable pub pcm_prefix : Bytes
pcm_prefix = codes "pcm64:"

-- `feed_audio`: the recogniser, where no exception leaves the call of the node, and the text that the
-- node is asked with, if it is.
unfoldable pub feed_audio : Bool → List ℕ → Bool → Recogniser → Recogniser × Option Bytes
unfolding silent pcm_prefix encode pcm_bytes to_string
feed_audio uplink pcm is_last a =
    let frame_count = a.frame_count + 1 in
    let samples = if uplink then a.samples ++ pcm else a.samples in
    if is_last
    then (
      silent,
      some (if uplink then pcm_prefix ++ encode (pcm_bytes samples) else to_string frame_count),
    )
    else (record { frame_count = frame_count; samples = samples }, none)

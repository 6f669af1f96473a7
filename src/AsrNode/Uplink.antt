-- ===== src/AsrNode/Uplink.antt =====
-- The audio that a session sends to its ASR node: what backends/net feeds is what the node's recogniser
-- is fed with.
use vox_orchestra.Prelude.{
  ℕ, ◌<◌, ◌≡◌, ◌≢◌, refl, sym, ap, ◌∙◌, Bool, false, Option, List, [], ◌∷◌, ◌++◌, append-nil, Bytes,
  arith, All,
}
use vox_orchestra.Base64.{encode}
use vox_orchestra.Base64.RoundTrip.{IsByte, decode-encode}
use vox_orchestra.FakeAudioSink.{pcm_bytes}
use vox_orchestra.SessionPipeline.{BackendEvent, is_empty}
use vox_orchestra.Rag.Router.{starts_with}
use vox_orchestra.NetBackends.{pcm_prefix, words}
use vox_orchestra.NetBackends.Samples.{words-pcm_bytes}
use vox_orchestra.AsrNode.{Node, Pause, run_bytes, run_pcm, infer}

pub pcm_bytes-IsByte : (xs : List ℕ) → All IsByte (pcm_bytes xs)
unfolding pcm_bytes
pcm_bytes-IsByte [] = tt
pcm_bytes-IsByte (x ∷ xs) = (omega arith, (omega arith, pcm_bytes-IsByte xs))

pub words_back : (xs : List ℕ) → All (λ x. x < 65536) xs → words (pcm_bytes xs) ≡ xs
unfolding words
words_back xs h =
    ap words (sym (append-nil (pcm_bytes xs))) ∙ words-pcm_bytes xs [] h ∙ append-nil xs

pub pcm_bytes_any : (xs : List ℕ) → xs ≢ [] → is_empty (pcm_bytes xs) ≡ false
unfolding is_empty pcm_bytes
pcm_bytes_any [] h = absurd (h refl)
pcm_bytes_any (x ∷ xs) h = refl

module _ {S : Type 0} (asr : S → List ℕ → Bool → S × List BackendEvent) (begin : S) (at : ℕ → Pause)
    (deadline : ℕ) where
  -- What the node does with a text that carries samples.
  pub infer-encode :
      (node : Node) (files : Bytes → Option Bytes) (xs : List ℕ)
      → infer asr begin at deadline node files (pcm_prefix ++ encode (pcm_bytes xs))
        ≡ run_bytes asr begin at deadline node (pcm_bytes xs)
  unfolding infer run_pcm pcm_prefix starts_with
  infer-encode node files xs =
      rw
        (
          infer,
          starts_with,
          pcm_prefix,
          run_pcm,
          decode-encode (pcm_bytes xs) (pcm_bytes-IsByte xs),
        )
        refl

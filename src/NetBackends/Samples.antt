-- ===== src/NetBackends/Samples.antt =====
-- What becomes of the samples of an event on the way through the data plane.
use vox_orchestra.Prelude.{
  ℕ, zero, suc, ◌+◌, ◌-◌, ◌*◌, ◌/◌, ◌%◌, ◌<◌, ◌≤◌, map, append_assoc, ◌≡◌, refl, ap, ap₂, ◌∙◌, List,
  [], ◌∷◌, ◌++◌, length, length-append, take, Bytes, bytes_eq, arith, All,
}
use vox_orchestra.Prelude.Fallible.{returns}
use vox_orchestra.FakeAudioSink.{pcm_bytes, zeros}
use vox_orchestra.FakeAudioSink.RoundTrip.{pcm_bytes-append, length-pcm_bytes}
use vox_orchestra.SessionPipeline.{Kind, k_partial, k_final, k_token, k_pcm, k_done}
use vox_orchestra.Dataplane.{dataplane_event_from_backend, kind_to_string}
use vox_orchestra.NetBackends.{words, copied, kind_named, to_backend_event}

unfoldable pub silence : ℕ → List ℕ
silence zero = []
silence (suc n) = 0 ∷ silence n

back :
    (kind : Kind) (text : Bytes) (pcm : List ℕ)
    → to_backend_event
        (dataplane_event_from_backend (record { kind = kind; text = text; pcm = pcm }))
      ≡ returns (record { kind = kind; text = text; pcm = copied (pcm_bytes pcm) })
unfolding to_backend_event dataplane_event_from_backend kind_named kind_to_string bytes_eq
back k_partial text pcm = refl
back k_final text pcm = refl
back k_token text pcm = refl
back k_pcm text pcm = refl
back k_done text pcm = refl

pub words-pcm_bytes :
    (xs : List ℕ) (bs : Bytes)
    → All (λ x. x < 65536) xs
    → words (pcm_bytes xs ++ bs) ≡ xs ++ words bs
unfolding words pcm_bytes
words-pcm_bytes [] bs h = refl
words-pcm_bytes (x ∷ xs) bs h =
    ap₂ (λ y ys. y ∷ ys) (omega (arith, h.0)) (words-pcm_bytes xs bs h.1)

words-zeros : (n : ℕ) → words (zeros (n + n)) ≡ silence n
unfolding words zeros silence
words-zeros zero = refl
words-zeros (suc n) =
    let shift : suc n + suc n ≡ suc (suc (n + n)) = omega arith in
    ap (λ m. words (zeros m)) shift ∙ ap (λ ys. 0 ∷ ys) (words-zeros n)

take-past : (n m : ℕ) (xs ys : Bytes) → length xs ≡ n → take (n + m) (xs ++ ys) ≡ xs ++ take m ys
take-past zero m [] ys e = ap (λ k. take k ys) (omega arith)
take-past (suc n) m [] ys e = absurd (omega (arith, e))
take-past zero m (x ∷ xs) ys e = absurd (omega (arith, e))
take-past (suc n) m (x ∷ xs) ys e =
    let shift : suc n + m ≡ suc (n + m) = omega arith in
    ap (λ k. take k (x ∷ (xs ++ ys))) shift
    ∙ ap (λ t. x ∷ t) (take-past n m xs ys (omega (arith, e)))

take_one :
    (mid : List ℕ) (rest : Bytes)
    → length mid ≤ 1
    → take (length mid) (pcm_bytes mid ++ rest) ≡ take (length mid) (pcm_bytes mid)
unfolding pcm_bytes
take_one [] rest h = refl
take_one (x ∷ []) rest h = refl
take_one (x ∷ y ∷ ys) rest h = absurd (omega (arith, h))

words-one :
    (mid : List ℕ) (n : ℕ)
    → length mid ≤ 1
    → words (take (length mid) (pcm_bytes mid) ++ zeros (length mid + (n + n)))
      ≡ map (λ x. x % 256) mid ++ silence n
unfolding words pcm_bytes zeros silence
words-one [] n h =
    let none_left : 0 + (n + n) ≡ n + n = omega arith in
    ap (λ k. words (zeros k)) none_left ∙ words-zeros n
words-one (x ∷ []) n h =
    let shift : 1 + (n + n) ≡ suc (n + n) = omega arith in
    ap (λ k. words (x % 256 ∷ zeros k)) shift ∙ ap₂ (λ y ys. y ∷ ys) (omega arith) (words-zeros n)
words-one (x ∷ y ∷ ys) n h = absurd (omega (arith, h))

copied_half :
    (xs mid ys : List ℕ)
    → length xs ≡ length ys
    → length mid ≤ 1
    → All (λ x. x < 65536) xs
    → copied (pcm_bytes (xs ++ (mid ++ ys))) ≡ xs ++ (map (λ x. x % 256) mid ++ silence (length ys))
unfolding copied
copied_half xs mid ys e one h =
    let n = length ys in
    let m = length mid in
    let total : length (xs ++ (mid ++ ys)) ≡ n + (m + n) =
      omega (arith, length-append xs (mid ++ ys), length-append mid ys, e) in
    let whole : length (pcm_bytes (xs ++ (mid ++ ys))) / 2 ≡ (n + n) + m =
      omega (arith, length-pcm_bytes (xs ++ (mid ++ ys)), total) in
    let first : take ((n + n) + m) (pcm_bytes (xs ++ (mid ++ ys)))
        ≡ pcm_bytes xs ++ take m (pcm_bytes mid) =
      ap (take ((n + n) + m))
        (pcm_bytes-append xs (mid ++ ys) ∙ ap (λ t. pcm_bytes xs ++ t) (pcm_bytes-append mid ys))
      ∙ take-past (n + n) m (pcm_bytes xs) (pcm_bytes mid ++ pcm_bytes ys)
          (omega (arith, length-pcm_bytes xs, e))
      ∙ ap (λ t. pcm_bytes xs ++ t) (take_one mid (pcm_bytes ys) one) in
    let rest : 2 * ((n + n) + m) - ((n + n) + m) ≡ m + (n + n) = omega arith in
    let tail = take m (pcm_bytes mid) ++ zeros (m + (n + n)) in
    rw (whole, first, rest, append_assoc)
      (words-pcm_bytes xs tail h ∙ ap (λ t. xs ++ t) (words-one mid n one))

-- An event that a node publishes and a remote back end replays keeps its kind and its text, but of
-- its samples only the first half: as many samples as were sent arrive, and the second half are 0.
-- Where their number is odd, the one in the middle arrives as its low byte. (The samples are `xs`, of 16
-- bits, at most one `mid`, and as many `ys` as `xs`, which each list is in one way.)
pub to_backend_event-half :
    (kind : Kind) (text : Bytes) (xs mid ys : List ℕ)
    → length xs ≡ length ys
    → length mid ≤ 1
    → All (λ x. x < 65536) xs
    → to_backend_event (
        dataplane_event_from_backend (record { kind = kind; text = text; pcm = xs ++ (mid ++ ys) }))
      ≡ returns (record {
        kind = kind;
        text = text;
        pcm = xs ++ (map (λ x. x % 256) mid ++ silence (length ys));
      })
to_backend_event-half kind text xs mid ys e one h =
    back kind text (xs ++ (mid ++ ys))
    ∙ ap (λ p. returns (record { kind = kind; text = text; pcm = p }))
        (copied_half xs mid ys e one h)

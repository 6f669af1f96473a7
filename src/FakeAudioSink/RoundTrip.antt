-- ===== src/FakeAudioSink/RoundTrip.antt =====
-- What the sink writes, the reader reads back.
use vox_orchestra.Prelude.{
  ℕ, suc, ◌+◌, ◌-◌, ◌*◌, ◌/◌, ◌%◌, ◌^◌, ◌<◌, ◌≡◌, refl, sym, ap, ◌∙◌, true, false, some, List, [],
  ◌∷◌, ◌++◌, append_assoc, append-nil, length, take, drop, get_elem?, length-append, All, Bytes,
  arith,
}
use vox_orchestra.WavReader.{le16, read_samples, read}
use vox_orchestra.WavReader.Canonical.{canonical, le32_of, read-canonical}
use vox_orchestra.FakeAudioSink.{Sink, header, zeros, pcm_bytes, open_sink, write_pcm, close}

-- Frames written one after the other, each in whole.
unfoldable pub write_all : List (List ℕ) → Sink → Sink
unfolding write_pcm
write_all [] s = s
write_all (f ∷ fs) s = write_all fs (write_pcm (length f * 2) f s).0

-- A whole file: opened, written and closed with no error of the C library.
unfoldable pub play : List (List ℕ) → Sink → Sink
unfolding open_sink write_all close
play frames s = (close true 44 true (write_all frames (open_sink true 44 s).0)).0

unfoldable pub join : List (List ℕ) → List ℕ
join [] = []
join (f ∷ fs) = f ++ join fs

abbrev pub IsSample : ℕ → Type 0
IsSample v = v < 2 ^ 16

pub pcm_bytes-append : (xs ys : List ℕ) → pcm_bytes (xs ++ ys) ≡ pcm_bytes xs ++ pcm_bytes ys
unfolding pcm_bytes
pcm_bytes-append [] ys = refl
pcm_bytes-append (x ∷ xs) ys = rw (pcm_bytes-append xs ys) refl

pub length-pcm_bytes : (xs : List ℕ) → length (pcm_bytes xs) ≡ length xs * 2
unfolding pcm_bytes
length-pcm_bytes [] = omega arith
length-pcm_bytes (x ∷ xs) = omega (arith, length-pcm_bytes xs)

write_pcm_lem :
    (f : List ℕ) (s : Sink)
    → s.is_open ≡ true
    → s.data_bytes + length f * 2 < 2 ^ 32
    → ((write_pcm (length f * 2) f s).0.is_open ≡ true)
      × ((write_pcm (length f * 2) f s).0.data_bytes ≡ s.data_bytes + length f * 2)
      × ((write_pcm (length f * 2) f s).0.content ≡ s.content ++ pcm_bytes f)
unfolding write_pcm
write_pcm_lem f s o h = ground arith

-- The bytes and the count behind some whole frames.
pub write_all_lem :
    (fs : List (List ℕ)) (s : Sink)
    → s.is_open ≡ true
    → s.data_bytes + length (join fs) * 2 < 2 ^ 32
    → ((write_all fs s).content ≡ s.content ++ pcm_bytes (join fs))
      × ((write_all fs s).data_bytes ≡ s.data_bytes + length (join fs) * 2)
      × ((write_all fs s).is_open ≡ true)
unfolding write_all join
write_all_lem [] s o h = (sym (append-nil s.content), omega arith, o)
write_all_lem (f ∷ fs) s o h =
    let s' = (write_pcm (length f * 2) f s).0 in
    let (opened, count, bytes) = write_pcm_lem f s o (ground (arith, length-append f (join fs))) in
    let (content, total, still) =
      write_all_lem fs s' opened (ground (arith, length-append f (join fs))) in
    (
      content ∙ rw (bytes, pcm_bytes-append f (join fs), append_assoc) refl,
      total ∙ omega (arith, count, length-append f (join fs)),
      still,
    )

get_elem?-skip :
    {A : Type 0} (xs ys : List A) (i : ℕ) → get_elem? (xs ++ ys) (length xs + i) ≡ get_elem? ys i
get_elem?-skip [] ys i = ap (get_elem? ys) (omega arith)
get_elem?-skip (x ∷ xs) ys i =
    let e : length (x ∷ xs) + i ≡ suc (length xs + i) = omega arith in
    ap (get_elem? (x ∷ (xs ++ ys))) e ∙ get_elem?-skip xs ys i

-- Two bytes behind a front.
le16-skip :
    (front rest : Bytes) (v off : ℕ)
    → IsSample v
    → off ≡ length front
    → le16 (front ++ v % 256 ∷ v / 256 % 256 ∷ rest) off ≡ some v
unfolding le16
le16-skip front rest v off h e =
    let next : off + 1 ≡ length front + 1 = omega arith in
    let here : off ≡ length front + 0 = omega arith in
    ground (
      arith,
      ap (get_elem? (front ++ v % 256 ∷ v / 256 % 256 ∷ rest)) here,
      ap (get_elem? (front ++ v % 256 ∷ v / 256 % 256 ∷ rest)) next,
      get_elem?-skip front (v % 256 ∷ v / 256 % 256 ∷ rest) 0,
      get_elem?-skip front (v % 256 ∷ v / 256 % 256 ∷ rest) 1,
    )

read_samples-pcm_bytes :
    (vs : List ℕ) (front : Bytes) (off : ℕ)
    → All IsSample vs
    → off ≡ length front
    → read_samples (length vs) (front ++ pcm_bytes vs) off ≡ some vs
unfolding read_samples pcm_bytes
read_samples-pcm_bytes [] front off h e = refl
read_samples-pcm_bytes (v ∷ vs) front off h e =
    let here = le16-skip front (pcm_bytes vs) v off h.0 e in
    let shift : front ++ v % 256 ∷ v / 256 % 256 ∷ pcm_bytes vs
        ≡ (front ++ v % 256 ∷ v / 256 % 256 ∷ []) ++ pcm_bytes vs =
      sym (append_assoc front (v % 256 ∷ v / 256 % 256 ∷ []) (pcm_bytes vs)) in
    let later =
      read_samples-pcm_bytes vs (front ++ v % 256 ∷ v / 256 % 256 ∷ []) (off + 2) h.1
        (omega (arith, length-append front (v % 256 ∷ v / 256 % 256 ∷ []))) in
    rw here (rw (shift, later) refl)

abbrev quarters : ℕ → ℕ × ℕ × ℕ × ℕ
quarters v = (v % 256, v / 256 % 256, v / 65536 % 256, v / 16777216 % 256)

-- The bytes of a file of the sink are those of a canonical file.
abbrev file_of : ℕ → Bytes → Bytes
file_of d body =
    canonical (quarters ((36 + d) % 2 ^ 32)) (quarters 16000) (quarters 32000) (2, 0) (quarters d)
      body

header-canonical :
    (d : ℕ) (body : Bytes) → take 44 (header d) ++ drop 44 (zeros 44 ++ body) ≡ file_of d body
unfolding header zeros canonical
header-canonical d body = refl

pub open_sink_lem :
    (s : Sink)
    → s.is_open ≡ false
    → open_sink true 44 s ≡ (
      record { is_open = true; data_bytes = 0; content = zeros 44; streams = s.streams + 1 },
      true,
    )
unfolding open_sink
open_sink_lem s o = rw o refl

close_content :
    (s : Sink)
    → s.is_open ≡ true
    → (close true 44 true s).0.content ≡ take 44 (header s.data_bytes) ++ drop 44 s.content
unfolding close
close_content s o = rw o refl

play_content :
    (frames : List (List ℕ)) (s : Sink)
    → s.is_open ≡ false
    → length (join frames) * 2 < 2 ^ 32
    → (play frames s).content ≡ file_of (length (join frames) * 2) (pcm_bytes (join frames))
unfolding play
play_content frames s o h =
    let t : Sink = record {
      is_open = true;
      data_bytes = 0;
      content = zeros 44;
      streams = s.streams + 1;
    } in
    let (content, total, still) = write_all_lem frames t refl (omega arith) in
    let total' : (write_all frames t).data_bytes ≡ length (join frames) * 2 = total ∙ omega arith in
    ap (λ r. (close true 44 true (write_all frames r.0)).0.content) (open_sink_lem s o)
    ∙ close_content (write_all frames t) still
    ∙ rw (content, total') (header-canonical (length (join frames) * 2) (pcm_bytes (join frames)))

le32_of-quarters : (v : ℕ) → v < 2 ^ 32 → le32_of (quarters v) ≡ v
le32_of-quarters v h = omega arith

-- The first 44 bytes of such a file.
abbrev front_of : ℕ → Bytes
front_of d = file_of d []

file_of-front : (d : ℕ) (body : Bytes) → file_of d body ≡ front_of d ++ body
unfolding canonical
file_of-front d body = refl

length-front_of : (d : ℕ) → 44 ≡ length (front_of d)
unfolding canonical
length-front_of d = refl

read_file_of :
    (vs : List ℕ)
    → All IsSample vs
    → read_samples (length vs) (file_of (length vs * 2) (pcm_bytes vs)) 44 ≡ some vs
read_file_of vs all =
    ap (λ b. read_samples (length vs) b 44) (file_of-front (length vs * 2) (pcm_bytes vs))
    ∙ read_samples-pcm_bytes vs (front_of (length vs * 2)) 44 all (length-front_of (length vs * 2))

-- Frames written to a sink that was closed, with no error of the C library, are read back from the
-- file as they were, one behind the other, at 16 kHz, on one channel, with 16 bits; the count of
-- bytes in the header must not wrap.
pub read-play :
    (path : Bytes) (frames : List (List ℕ)) (s : Sink)
    → s.is_open ≡ false
    → All IsSample (join frames)
    → length (join frames) * 2 < 2 ^ 32
    → read path (some (play frames s).content)
      ≡ some (record {
        ok = true;
        error = [];
        info = record { sample_rate = 16000; channels = 1; bits = 16; samples = join frames };
      })
read-play path frames s o all h =
    let vs = join frames in
    let d = length vs * 2 in
    let bytes = quarters d in
    let count : (le32_of bytes - le32_of bytes % 2) / 2 ≡ length vs = omega arith in
    ap (λ b. read path (some b)) (play_content frames s o h)
    ∙ read-canonical (quarters ((36 + d) % 2 ^ 32)) (quarters 16000) (quarters 32000) (2, 0) bytes
        (pcm_bytes vs) path (λ e. cc) (omega (arith, length-pcm_bytes vs))
        (ap (λ n. read_samples n (file_of d (pcm_bytes vs)) 44) count ∙ read_file_of vs all)

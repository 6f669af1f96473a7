-- ===== src/SentenceChunker.antt =====
-- The sentence splitter of libs/common/include/voxorchestra/common/sentence_chunker.hpp and
-- libs/common/src/sentence_chunker.cpp, on bytes.
pub mod Content
pub mod Stream
mod Tests
use vox_orchestra.Prelude.{
  ℕ, Bool, true, false, ◌&&◌, ◌||◌, List, [], ◌∷◌, ◌++◌, ◌==◌, if◌then◌else◌, Bytes,
}

pub record Chunker : Type 0 where
  pub cur : Bytes
  pub split_pending : Bool

unfoldable pub new : Chunker
new = record { cur = []; split_pending = false }

-- The full stop, and the exclamation mark, question mark and semicolon of full width.
unfoldable pub is_cjk_terminator : ℕ → ℕ → ℕ → Bool
is_cjk_terminator b0 b1 b2 =
    if b0 == 0xE3 && b1 == 0x80
    then b2 == 0x82
    else if b0 == 0xEF && b1 == 0xBC
    then b2 == 0x81 || b2 == 0x9F || b2 == 0x9B
    else false

-- The chunker and the sentences that are complete.
abbrev pub Progress : Type 0
Progress = Chunker × List Bytes

finish : Bytes → Bytes → Progress → Progress
finish [] punct (k, out) = (k, out)
finish (c ∷ cs) punct (k, out) =
    (record { cur = []; split_pending = true }, out ++ ((c ∷ cs) ++ punct) ∷ [])

unfoldable pub on_terminator : Bytes → Progress → Progress
unfolding finish
on_terminator punct (k, out) = if k.split_pending then (k, out) else finish k.cur punct (k, out)

-- One byte that begins no three-byte terminator.
unfoldable pub on_byte : ℕ → Progress → Progress
unfolding on_terminator
on_byte c (k, out) =
    if c == b'!' || c == b'?' || c == b';' || c == b'\n'
    then on_terminator (if c == b'\n' then [] else c ∷ []) (k, out)
    else if c == b'\r'
    then (k, out)
    else (record { cur = k.cur ++ c ∷ []; split_pending = false }, out)

-- The loop of `feed`, on the rest of the text.
unfoldable pub feed_loop : Bytes → Progress → Progress
unfolding is_cjk_terminator on_terminator on_byte
feed_loop [] p = p
feed_loop (c ∷ []) p = on_byte c p
feed_loop (c ∷ d ∷ []) p = on_byte d (on_byte c p)
feed_loop (c ∷ d ∷ e ∷ cs) p =
    let mark = feed_loop cs (on_terminator (c ∷ d ∷ e ∷ []) p) in
    let byte = feed_loop (d ∷ e ∷ cs) (on_byte c p) in
    if is_cjk_terminator c d e then mark else byte

unfoldable pub feed : Bytes → Chunker → Progress
unfolding feed_loop
feed text k = feed_loop text (k, [])

rest_of : Bytes → List Bytes
rest_of [] = []
rest_of (c ∷ cs) = (c ∷ cs) ∷ []

unfoldable pub flush : Chunker → Progress
unfolding rest_of
flush k =
    if k.split_pending
    then (record { cur = []; split_pending = false }, [])
    else (record k { cur = [] }, rest_of k.cur)

-- ===== src/FakeAudioSink/Calls.antt =====
-- The streams of the C library that the sink opens, over any sequence of calls.
use vox_orchestra.Prelude.{
  ℕ, ◌+◌, ◌≡◌, refl, ◌∙◌, Bool, true, false, not, ◌&&◌, List, [], ◌∷◌, ◌==◌, Bytes, arith,
}
use vox_orchestra.FakeAudioSink.{Sink, new, open_sink, write_pcm, close}

-- The calls, with what the C library does.
pub data Call : Type 0 where
  opens : Bool → ℕ → Call
  writes : ℕ → List ℕ → Call
  closes : Bool → ℕ → Bool → Call

unfoldable pub call : Call → Sink → Sink
call (opens opened n) s = (open_sink opened n s).0
call (writes n pcm) s = (write_pcm n pcm s).0
call (closes found_start n closed) s = (close found_start n closed s).0

unfoldable pub run : List Call → Sink → Sink
run [] s = s
run (c ∷ cs) s = run cs (call c s)

unfoldable pub count : Bool → ℕ
count true = 1
count false = 0

-- A call to `close` that does not get the whole header written.
unfoldable pub leaks : Call → Sink → ℕ
unfolding count
leaks (opens opened n) s = 0
leaks (writes n pcm) s = 0
leaks (closes found_start n closed) s = count (s.is_open && not (found_start && n == 44))

unfoldable pub all_leaks : List Call → Sink → ℕ
all_leaks [] s = 0
all_leaks (c ∷ cs) s = leaks c s + all_leaks cs (call c s)

call-streams :
    (c : Call) (s : Sink) (lost : ℕ)
    → s.streams ≡ count s.is_open + lost
    → (call c s).streams ≡ count (call c s).is_open + (leaks c s + lost)
unfolding call leaks count open_sink write_pcm close
call-streams (opens opened n) s lost h = ground arith
call-streams (writes n pcm) s lost h = ground arith
call-streams (closes found_start n closed) s lost h = ground arith

run-streams :
    (cs : List Call) (s : Sink) (lost : ℕ)
    → s.streams ≡ count s.is_open + lost
    → (run cs s).streams ≡ count (run cs s).is_open + (all_leaks cs s + lost)
unfolding run all_leaks
run-streams [] s lost h = omega (arith, h)
run-streams (c ∷ cs) s lost h =
    run-streams cs (call c s) (leaks c s + lost) (call-streams c s lost h) ∙ omega arith

-- After any calls to a new sink, whatever the C library does, the streams left open are the one that
-- the sink still holds, and one for each call to `close` that did not get the header written in
-- whole: that call drops the handle without closing the stream.
pub run-new-streams :
    (cs : List Call) (file : Bytes)
    → (run cs (new file)).streams ≡ count (run cs (new file)).is_open + all_leaks cs (new file)
unfolding new count
run-new-streams cs file = run-streams cs (new file) 0 refl ∙ omega arith

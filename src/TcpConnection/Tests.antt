-- ===== src/TcpConnection/Tests.antt =====
-- A connection at concrete inputs: a client that sends two lines, to which the callback answers.
use vox_orchestra.Prelude.{refl, ◌≡◌, true, List, [], ◌∷◌, ◌++◌, map, codes}
use vox_orchestra.FrameDecoder as FrameDecoder
use vox_orchestra.TcpConnection.{
  Connection, new, Callback, sends, got, peer_closed, took, Step, readable, writable, run,
}
use vox_orchestra.TcpConnection.Bounds.{IsSound, new-IsSound, run-IsSound}
use vox_orchestra.TcpConnection.Reading.{half_closed}

abbrev echo : Callback
echo frame = sends (frame ++ b'\n' ∷ []) ∷ []

abbrev start : Connection
start = new 16 8

abbrev talk : List Step
talk = readable (got (codes "ab") ∷ got (b'\n' ∷ codes "c") ∷ []) ∷ writable (took 2 ∷ []) ∷ []

abbrev talked : Connection
talked = run echo talk start

talked_test : talked.written ≡ codes "ab"
unfolding run new FrameDecoder.new
talked_test = refl

run-IsSound_example : IsSound talked
run-IsSound_example = run-IsSound echo talk start (new-IsSound 16 8)

-- The same, where the client ends its half of the stream.
half_closed_example :
    let c =
      run echo
        (readable (map got ((codes "ab" ++ b'\n' ∷ []) ∷ []) ++ peer_closed ∷ [])
          ∷ writable (took 3 ∷ [])
          ∷ [])
        start in
    (c.closed ≡ true) × (c.written ≡ start.written)
half_closed_example =
    half_closed echo ((codes "ab" ++ b'\n' ∷ []) ∷ []) (writable (took 3 ∷ []) ∷ []) start

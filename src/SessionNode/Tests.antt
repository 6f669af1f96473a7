-- ===== src/SessionNode/Tests.antt =====
-- The session node at concrete inputs: one client sets a session up and asks it twice.
use vox_orchestra.Prelude.{
  ◌≡◌, ◌+◌, refl, true, none, some, List, [], ◌∷◌, Bytes, codes, utf8, bytes_eq, find, assign,
}
use vox_orchestra.Prelude.Int.{pos}
use vox_orchestra.Prelude.Fallible.{Result, returns, throws}
use vox_orchestra.Protocol.{Envelope, default_envelope, setup_type, inference_type, to_object}
use vox_orchestra.Protocol.Parse.{from_json, Thrown}
use vox_orchestra.Protocol.Trees.{
  Tree, string_leaf, node, stop, field, fields_of, write, leaf, parse_tree, is_node, member_of,
  int_of, string_of, bool_of, trees,
}
use vox_orchestra.SessionNode.{Setting, Node, Worker, new, new_session}
use vox_orchestra.SessionPipeline.{PipelineConfig, l1, k_pcm, k_text}
use vox_orchestra.SentenceChunker as SentenceChunker
use vox_orchestra.SessionPipeline.Run as Run
use vox_orchestra.SessionPipeline.Run.{World, no_result}
use vox_orchestra.SessionNode.Steps.{Ending, run_inference, Step, serves, ends, run}
use vox_orchestra.SessionNode.Valid.{working, IsValid, new-IsValid}
use vox_orchestra.SessionNode.Requests.{handle_request, refuse, read_input}
use vox_orchestra.SessionNode.Microphone.{Infers, alsa_sticks}
use vox_orchestra.SessionNode.Invariant.{run-IsValid}
use vox_orchestra.SessionNode.Outcome.{whole_run}
use vox_orchestra.SessionNode.Accounts.{due, asked, run-due}

abbrev embedded : Setting trees
embedded = record {
  config = record { backend = codes "embedded"; fixture_dir = codes "in" };
  net_asr = λ id. none;
  net_llm = λ id. none;
  net_tts = λ id. none;
  no_value = λ v. codes "type_error";
}

abbrev set_up : Envelope Tree
set_up = record (default_envelope trees) { type = setup_type; work_id = codes "w" }

abbrev ask : Bytes → Envelope Tree
ask mode = record set_up {
  type = inference_type;
  payload = node (field (codes "mode") (string_leaf mode) stop);
}

abbrev client : Bytes
client = codes "c"

abbrev sends : Envelope Tree → Step
sends m = serves (some (record { identity = client; text = write (to_object trees m) }))

abbrev quick : Ending
quick p = (p, no_result)

abbrev reached : Result Thrown Node → Node
reached (returns n) = n
reached (throws t) = new

abbrev talk : List Step
talk =
    sends set_up
    ∷ sends (ask (codes "text"))
    ∷ sends (ask (codes "text"))
    ∷ ends 0 quick
    ∷ serves none
    ∷ []

abbrev talked : Node
talked = reached (run trees embedded talk new)

talked_test : run trees embedded talk new ≡ returns talked
unfolding run new write fields_of parse_tree leaf is_node member_of int_of string_of bool_of assign
    utf8
talked_test = refl

run-IsValid_example : IsValid talked
run-IsValid_example = run-IsValid trees embedded talk new talked_test new-IsValid

-- Three requests, three answers.
run-due_example : due client talked ≡ due client new + asked client talk
unfolding new
run-due_example =
    run-due trees embedded client talk new talked_test (tt, (tt, (tt, (tt, (tt, tt))))) new-IsValid
      refl

due_test : due client talked ≡ 3
unfolding run new write fields_of parse_tree leaf is_node member_of int_of string_of bool_of assign
    utf8 due bytes_eq
due_test = refl

abbrev open_node : Node
open_node = reached (run trees embedded (sends set_up ∷ []) new)

open_node_test : run trees embedded (sends set_up ∷ []) new ≡ returns open_node
unfolding run new write fields_of parse_tree leaf is_node member_of int_of string_of bool_of assign
    utf8
open_node_test = refl

open_node-IsValid : IsValid open_node
open_node-IsValid = run-IsValid trees embedded (sends set_up ∷ []) new open_node_test new-IsValid

abbrev text_of : Envelope Tree → Bytes
text_of m = write (to_object trees m)

abbrev hung : Node
hung = reached (handle_request trees embedded client (text_of (ask (codes "alsa"))) open_node)

hung_test :
    handle_request trees embedded client (text_of (ask (codes "alsa"))) open_node ≡ returns hung
unfolding run handle_request new write fields_of parse_tree leaf is_node member_of int_of string_of
    bool_of assign utf8
hung_test = refl

-- The worker of no request ends, and a reply is waited for.
abbrev meanwhile : List Step
meanwhile = ends 0 quick ∷ serves none ∷ []

abbrev later : Node
later = reached (run trees embedded meanwhile hung)

later_test : run trees embedded meanwhile hung ≡ returns later
unfolding run handle_request new write fields_of parse_tree leaf is_node member_of int_of string_of
    bool_of assign utf8
later_test = refl

asked_alsa : Infers trees (text_of (ask (codes "alsa"))) 0 open_node
unfolding run from_json find new write fields_of parse_tree leaf is_node member_of int_of string_of
    bool_of assign utf8
asked_alsa = record { request = ask (codes "alsa"); reads = refl; kind = refl; entry = refl }

asked_text : Infers trees (text_of (ask (codes "text"))) 0 later
unfolding run from_json find handle_request new write fields_of parse_tree leaf is_node member_of
    int_of string_of bool_of assign utf8
asked_text = record { request = ask (codes "text"); reads = refl; kind = refl; entry = refl }

alsa_sticks_example :
    (working 0 later.workers ≡ 0)
    × (handle_request trees embedded client (text_of (ask (codes "text"))) later
        ≡ refuse trees embedded client (ask (codes "text")) (pos 3) (utf8 "会话忙碌（单流）") later)
unfolding run bytes_eq read_input asked_alsa asked_text new write fields_of parse_tree leaf is_node
    member_of int_of string_of bool_of assign utf8
alsa_sticks_example =
    alsa_sticks trees embedded client (text_of (ask (codes "alsa"))) 0 new_session open_node
      asked_alsa open_node-IsValid refl refl refl hung_test meanwhile later_test (tt, (tt, tt))
      client (text_of (ask (codes "text"))) asked_text

abbrev config : PipelineConfig
config = record {
  text_queue_capacity = 2;
  pcm_queue_capacity = 2;
  queue_push_timeout = 0;
  stage_delay = 0;
  output_dir = codes "out";
  tts_min_duration = 0;
}

-- Everything succeeds, and each sentence is spoken as one frame.
abbrev world : World
world = record {
  at = λ p. record { passes = 1; others = [] };
  sink_opens = true;
  files = λ path. none;
  asr = λ n frame last. record { events = []; thrown = none };
  route = λ q. returns (record { level = l1; answer = codes "Yes!"; prompt = [] });
  llm = λ prompt. record { events = []; thrown = none };
  tts = λ n sentence. (record { kind = k_pcm; text = []; pcm = sentence } ∷ [], none);
  schedule = [];
  pads = λ frames. true;
  sink_closes = true;
}

abbrev helper : Worker
helper = record {
  identity = client;
  work_id = codes "w";
  request_id = codes "r";
  session = 0;
  input = record { mode = k_text; text = codes "why"; wav_path = []; audio = [] };
}

abbrev answered : Node
answered = reached (run_inference trees (whole_run config world (pos 0) helper) helper open_node)

answered_test :
    run_inference trees (whole_run config world (pos 0) helper) helper open_node ≡ returns answered
unfolding run_inference run new write fields_of parse_tree leaf is_node member_of int_of string_of
    bool_of Run.run SentenceChunker.new
answered_test = refl

-- ===== src/TtsNode/Heard.antt =====
-- A file of the TTS node as the request of an ASR node.
use vox_orchestra.WavReader as WavReader
use vox_orchestra.AsrNode as AsrNode
use vox_orchestra.TtsNode as TtsNode

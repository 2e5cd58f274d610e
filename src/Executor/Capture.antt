-- ===== src/Executor/Capture.antt =====
-- `_capture`: the loop that reads the pipes of a running process. The loop ends when the pipes are
-- closed and the process has ended, which the operating system decides: the rounds that it makes
-- are an argument. `_terminate_process` is counted, and not modelled further.
use adaptive_harness.Prelude.{
  ℕ, suc, ◌+◌, ◌-◌, Bool, true, false, not, ◌&&◌, List, [], ◌∷◌, ◌++◌, ltb, length, take,
  if◌then◌else◌,
}
use adaptive_harness.Executor.Defs.{Stream, Chunk, Round}

-- The variables of the loop, and how often the process was terminated.
pub record CaptureState : Type 0 where
  pub stdout : List ℕ
  pub stderr : List ℕ
  pub timed_out : Bool
  pub cancelled : Bool
  pub output_truncated : Bool
  pub termination_requested : Bool
  pub terminations : ℕ

abbrev pub capture_start : CaptureState
capture_start = record {
  stdout = [];
  stderr = [];
  timed_out = false;
  cancelled = false;
  output_truncated = false;
  termination_requested = false;
  terminations = 0;
}

unfoldable pub check_cancelled : Bool → CaptureState → CaptureState
check_cancelled is_set s =
    if not s.termination_requested && is_set
    then record s {
      cancelled = true;
      termination_requested = true;
      terminations = suc s.terminations;
    }
    else s

unfoldable pub check_deadline : Bool → CaptureState → CaptureState
check_deadline passed s =
    if not s.termination_requested && passed
    then record s {
      timed_out = true;
      termination_requested = true;
      terminations = suc s.terminations;
    }
    else s

-- `buffers[key.data].extend(bytes)`
abbrev extend : Stream → List ℕ → CaptureState → CaptureState
extend Stream.stdout bytes s = record s { stdout = s.stdout ++ bytes }
extend Stream.stderr bytes s = record s { stderr = s.stderr ++ bytes }

-- `max_output_bytes - current_size`, or 0 where that is negative: no byte is kept then
abbrev remaining : ℕ → CaptureState → ℕ
remaining max_output_bytes s = max_output_bytes - (length s.stdout + length s.stderr)

abbrev truncate_output : CaptureState → CaptureState
truncate_output s =
    if s.termination_requested then record s { output_truncated = true } else record s {
      output_truncated = true;
      termination_requested = true;
      terminations = suc s.terminations;
    }

-- The body of the loop over the ready pipes. The end of a stream changes no variable.
unfoldable pub read_chunk : ℕ → CaptureState → Chunk → CaptureState
read_chunk max_output_bytes s chunk =
    let kept = extend chunk.stream (take (remaining max_output_bytes s) chunk.bytes) s in
    if ltb (remaining max_output_bytes s) (length chunk.bytes) then truncate_output kept else kept

unfoldable pub read_chunks : ℕ → CaptureState → List Chunk → CaptureState
read_chunks max_output_bytes s [] = s
read_chunks max_output_bytes s (chunk ∷ chunks) =
    read_chunks max_output_bytes (read_chunk max_output_bytes s chunk) chunks

unfoldable pub capture_round : ℕ → CaptureState → Round → CaptureState
capture_round max_output_bytes s round =
    read_chunks max_output_bytes
      (check_deadline round.deadline_passed (check_cancelled round.cancel_is_set s)) round.reads

unfoldable pub capture : ℕ → CaptureState → List Round → CaptureState
capture max_output_bytes s [] = s
capture max_output_bytes s (round ∷ rounds) =
    capture max_output_bytes (capture_round max_output_bytes s round) rounds

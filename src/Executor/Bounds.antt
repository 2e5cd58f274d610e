-- ===== src/Executor/Bounds.antt =====
-- What the capture loop keeps of the output, and when it stops the process.
use adaptive_harness.Prelude.{
  ℕ, ◌+◌, ◌-◌, ◌≤◌, ◌≡◌, Bool, false, ◌&&◌, ◌||◌, List, [], ◌∷◌, arith, length, take, length-append,
  length-take, if◌then◌else◌,
}
use adaptive_harness.Executor.Defs.{Chunk, Round}
use adaptive_harness.Executor.Capture.{
  CaptureState, capture_start, check_cancelled, check_deadline, read_chunk, read_chunks,
  capture_round, capture,
}

-- The kept output fits the limit, and the process is terminated once, for the first of the reasons
-- that the flags report; it is never both cancelled and timed out.
pub record Orderly (max : ℕ) (s : CaptureState) : Type 0 where
  pub fits : length s.stdout + length s.stderr ≤ max
  pub reason : s.termination_requested ≡ (s.cancelled || s.timed_out || s.output_truncated)
  pub once : s.terminations ≡ (if s.termination_requested then 1 else 0)
  pub exclusive : (s.cancelled && s.timed_out) ≡ false

check_cancelled-Orderly :
    (max : ℕ) (b : Bool) (s : CaptureState) → Orderly max s → Orderly max (check_cancelled b s)
unfolding check_cancelled
check_cancelled-Orderly max b s h = ground arith

check_deadline-Orderly :
    (max : ℕ) (b : Bool) (s : CaptureState) → Orderly max s → Orderly max (check_deadline b s)
unfolding check_deadline
check_deadline-Orderly max b s h = ground arith

read_chunk-Orderly :
    (max : ℕ) (s : CaptureState) (chunk : Chunk)
    → Orderly max s
    → Orderly max (read_chunk max s chunk)
unfolding read_chunk
read_chunk-Orderly max s chunk h =
    let room = max - (length s.stdout + length s.stderr) in
    ground (
      arith,
      length-append s.stdout (take room chunk.bytes),
      length-append s.stderr (take room chunk.bytes),
      length-take room chunk.bytes,
    )

read_chunks-Orderly :
    (max : ℕ) (s : CaptureState) (chunks : List Chunk)
    → Orderly max s
    → Orderly max (read_chunks max s chunks)
unfolding read_chunks
read_chunks-Orderly max s [] h = h
read_chunks-Orderly max s (chunk ∷ chunks) h =
    read_chunks-Orderly max (read_chunk max s chunk) chunks (read_chunk-Orderly max s chunk h)

capture_round-Orderly :
    (max : ℕ) (s : CaptureState) (round : Round)
    → Orderly max s
    → Orderly max (capture_round max s round)
unfolding capture_round
capture_round-Orderly max s round h = read_chunks-Orderly max _ round.reads (
    check_deadline-Orderly max round.deadline_passed _
      (check_cancelled-Orderly max round.cancel_is_set s h))

capture-Orderly :
    (max : ℕ) (s : CaptureState) (rounds : List Round)
    → Orderly max s
    → Orderly max (capture max s rounds)
unfolding capture
capture-Orderly max s [] h = h
capture-Orderly max s (round ∷ rounds) h =
    capture-Orderly max (capture_round max s round) rounds (capture_round-Orderly max s round h)

-- Whatever the process writes and whenever it is stopped, the captured output fits the limit, the
-- process is terminated at most once, and exactly when cancellation, the timeout or the output limit
-- is reported, of which the first two exclude each other.
pub capture_bounded :
    (max : ℕ) (rounds : List Round) → Orderly max (capture max capture_start rounds)
capture_bounded max rounds = capture-Orderly max capture_start rounds (ground arith)

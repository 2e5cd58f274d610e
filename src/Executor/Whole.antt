-- ===== src/Executor/Whole.antt =====
-- How the captured output relates to all that the process wrote.
use mathlib.Core.List.{append-nil, append_assoc}
use adaptive_harness.Prelude.{
  ℕ, ◌+◌, ◌-◌, ◌≡◌, refl, sym, ap, Bool, false, List, [], ◌∷◌, ◌++◌, arith, ltb, length,
  length-append, take_all,
}
use adaptive_harness.Executor.Defs.{Stream, stdout, stderr, Chunk, Round}
use adaptive_harness.Executor.Capture.{
  CaptureState, capture_start, check_cancelled, check_deadline, read_chunk, read_chunks,
  capture_round, capture,
}

abbrev from_stream : Stream → Stream → List ℕ → List ℕ
from_stream stdout stdout bytes = bytes
from_stream stderr stderr bytes = bytes
from_stream _ _ bytes = []

abbrev piece : Stream → Chunk → List ℕ
piece wanted chunk = from_stream chunk.stream wanted chunk.bytes

abbrev pub bytes_read : Stream → List Chunk → List ℕ
bytes_read wanted [] = []
bytes_read wanted (chunk ∷ chunks) = piece wanted chunk ++ bytes_read wanted chunks

-- All that was written to a pipe, over all rounds.
abbrev pub bytes_written : Stream → List Round → List ℕ
bytes_written wanted [] = []
bytes_written wanted (round ∷ rounds) = bytes_read wanted round.reads ++ bytes_written wanted rounds

-- Truncation is reported exactly when more was written than fits; otherwise all of it is kept.
record Faithful (max : ℕ) (s : CaptureState) (out errors : List ℕ) : Type 0 where
  exact : s.output_truncated ≡ ltb max (length out + length errors)
  whole : s.output_truncated ≡ false → (s.stdout ≡ out) × (s.stderr ≡ errors)

check_cancelled-Faithful :
    (max : ℕ) (b : Bool) (s : CaptureState) (out errors : List ℕ)
    → Faithful max s out errors
    → Faithful max (check_cancelled b s) out errors
unfolding check_cancelled
check_cancelled-Faithful max b s out errors h = ground (arith, h.whole)

check_deadline-Faithful :
    (max : ℕ) (b : Bool) (s : CaptureState) (out errors : List ℕ)
    → Faithful max s out errors
    → Faithful max (check_deadline b s) out errors
unfolding check_deadline
check_deadline-Faithful max b s out errors h = ground (arith, h.whole)

read_from-Faithful :
    (max : ℕ) (s : CaptureState) (stream : Stream) (bytes out errors : List ℕ)
    → Faithful max s out errors
    → Faithful max
        (read_chunk max s (record { stream = stream; bytes = bytes }))
        (out ++ from_stream stream stdout bytes)
        (errors ++ from_stream stream stderr bytes)
unfolding read_chunk
read_from-Faithful max s stdout bytes out errors h =
    let room = max - (length s.stdout + length s.stderr) in
    rw (append-nil errors) (
      ground (
        arith,
        h.whole,
        length-append out bytes,
        take_all room bytes,
        ap (length {A = ℕ}) (sym (append-nil errors)),
      ))
read_from-Faithful max s stderr bytes out errors h =
    let room = max - (length s.stdout + length s.stderr) in
    rw (append-nil out) (ground (arith, h.whole, length-append errors bytes, take_all room bytes))

read_chunk-Faithful :
    (max : ℕ) (s : CaptureState) (chunk : Chunk) (out errors : List ℕ)
    → Faithful max s out errors
    → Faithful max
        (read_chunk max s chunk)
        (out ++ piece stdout chunk)
        (errors ++ piece stderr chunk)
read_chunk-Faithful max s chunk out errors h =
    read_from-Faithful max s chunk.stream chunk.bytes out errors h

read_chunks-Faithful :
    (max : ℕ) (s : CaptureState) (chunks : List Chunk) (out errors : List ℕ)
    → Faithful max s out errors
    → Faithful max
        (read_chunks max s chunks)
        (out ++ bytes_read stdout chunks)
        (errors ++ bytes_read stderr chunks)
unfolding read_chunks
read_chunks-Faithful max s [] out errors h = rw (append-nil out, append-nil errors) h
read_chunks-Faithful max s (chunk ∷ chunks) out errors h =
    rw
      (
        ← append_assoc out (piece stdout chunk) (bytes_read stdout chunks),
        ← append_assoc errors (piece stderr chunk) (bytes_read stderr chunks),
      )
      (read_chunks-Faithful max (read_chunk max s chunk) chunks (out ++ piece stdout chunk)
        (errors ++ piece stderr chunk) (read_chunk-Faithful max s chunk out errors h))

capture_round-Faithful :
    (max : ℕ) (s : CaptureState) (round : Round) (out errors : List ℕ)
    → Faithful max s out errors
    → Faithful max
        (capture_round max s round)
        (out ++ bytes_read stdout round.reads)
        (errors ++ bytes_read stderr round.reads)
unfolding capture_round
capture_round-Faithful max s round out errors h =
    let cancelled = check_cancelled round.cancel_is_set s in
    read_chunks-Faithful max (check_deadline round.deadline_passed cancelled) round.reads out errors
      (check_deadline-Faithful max round.deadline_passed cancelled out errors
        (check_cancelled-Faithful max round.cancel_is_set s out errors h))

capture-Faithful :
    (max : ℕ) (s : CaptureState) (rounds : List Round) (out errors : List ℕ)
    → Faithful max s out errors
    → Faithful max
        (capture max s rounds)
        (out ++ bytes_written stdout rounds)
        (errors ++ bytes_written stderr rounds)
unfolding capture
capture-Faithful max s [] out errors h = rw (append-nil out, append-nil errors) h
capture-Faithful max s (round ∷ rounds) out errors h =
    rw
      (
        ← append_assoc out (bytes_read stdout round.reads) (bytes_written stdout rounds),
        ← append_assoc errors (bytes_read stderr round.reads) (bytes_written stderr rounds),
      )
      (capture-Faithful max (capture_round max s round) rounds
        (out ++ bytes_read stdout round.reads) (errors ++ bytes_read stderr round.reads)
        (capture_round-Faithful max s round out errors h))

capture_start-Faithful :
    (max : ℕ) (rounds : List Round)
    → Faithful max
        (capture max capture_start rounds)
        (bytes_written stdout rounds)
        (bytes_written stderr rounds)
capture_start-Faithful max rounds =
    capture-Faithful max capture_start rounds [] []
      (record { exact = ground arith; whole = λ h. (refl, refl) })

-- The capture loop reports truncation exactly when the process wrote more bytes, over both pipes,
-- than the limit.
pub capture_truncates :
    (max : ℕ) (rounds : List Round)
    → (capture max capture_start rounds).output_truncated
      ≡ ltb max (length (bytes_written stdout rounds) + length (bytes_written stderr rounds))
capture_truncates max rounds = (capture_start-Faithful max rounds).exact

-- When the capture loop reports no truncation, each buffer holds all that was written to its pipe,
-- in order.
pub capture_whole :
    (max : ℕ) (rounds : List Round)
    → (capture max capture_start rounds).output_truncated ≡ false
    → ((capture max capture_start rounds).stdout ≡ bytes_written stdout rounds)
      × ((capture max capture_start rounds).stderr ≡ bytes_written stderr rounds)
capture_whole max rounds = (capture_start-Faithful max rounds).whole

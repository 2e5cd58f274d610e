-- ===== src/Tests/Transactions.antt =====
-- A transaction with a new file and a changed one, that dies while it is committed.
use adaptive_harness.Prelude.{
  ℕ, zero, suc, ◌+◌, String, code, ◌≡◌, refl, ap, ◌∙◌, ◌⊎◌, Bool, true, false, List, [], ◌∷◌, none,
  some, ◌==◌, if◌then◌else◌, arith,
}
use adaptive_harness.Init.{
  Bytes, Parts, Disk, put, Fate, works, dies, State, returned, PlannedChange, JournalStatus, Format,
  journal_path, journal_of, apply, recover,
}
use adaptive_harness.Init.Visible.{visible, changed_files}
use adaptive_harness.Init.Atomic.{left, apply-recover_atomic, apply_returned}

-- Bytes as text: as many `a` as the byte counts, and a `b`.
abbrev letters : ℕ → String → String
letters zero rest = String.◌∷◌ "b" rest
letters (suc n) rest = String.◌∷◌ "a" (letters n rest)

abbrev encode : Bytes → String
encode [] = ""
encode (n ∷ ns) = letters n (encode ns)

abbrev decode_from : ℕ → String → Bytes
decode_from n String.[] = []
decode_from n (String.◌∷◌ c rest) =
    if code c == 97 then decode_from (suc n) rest else n ∷ decode_from 0 rest

decode-letters :
    (n k : ℕ) (rest : String) → decode_from k (letters n rest) ≡ (k + n) ∷ decode_from 0 rest
decode-letters zero k rest = ap (λ x. x ∷ decode_from 0 rest) (omega arith)
decode-letters (suc n) k rest =
    decode-letters n (suc k) rest ∙ ap (λ x. x ∷ decode_from 0 rest) (omega arith)

pub decode-encode : (content : Bytes) → decode_from 0 (encode content) ≡ content
decode-encode [] = refl
decode-encode (n ∷ ns) =
    decode-letters n 0 (encode ns)
    ∙ ap (λ x. x ∷ decode_from 0 (encode ns)) (omega arith)
    ∙ ap (λ x. n ∷ x) (decode-encode ns)

abbrev config : List String
config = ".harness" ∷ "config.json" ∷ []

abbrev changes : List PlannedChange
changes =
    record { path = ".harness/config.json"; before = none; after = 1 ∷ 2 ∷ [] }
    ∷ record { path = "README.md"; before = some (7 ∷ []); after = 7 ∷ 8 ∷ [] }
    ∷ []

abbrev files : Disk
files = put ("README.md" ∷ []) (7 ∷ []) (λ p. none)

abbrev start : State
start = record { clock = 0; disk = files }

abbrev pub coding : Format
coding = record {
  write_journal = λ journal. [];
  read_journal = λ content. none;
  encode = encode;
  decode = λ text. some (decode_from 0 text);
  sha256 = λ content. "";
}

abbrev pub status_bytes : JournalStatus → Bytes
status_bytes JournalStatus.preparing = []
status_bytes JournalStatus.staged = 1 ∷ []

abbrev pub bytes_status : Bytes → JournalStatus
bytes_status [] = JournalStatus.preparing
bytes_status _ = JournalStatus.staged

-- A format that writes the status of a journal, all of which are of this transaction.
abbrev format : Format
format = record coding {
  write_journal = λ journal. status_bytes journal.status;
  read_journal = λ content. some (journal_of coding "tx" true changes (bytes_status content));
}

journals :
    (status : JournalStatus)
    → format.read_journal (format.write_journal (journal_of format "tx" true changes status))
      ≡ some (journal_of format "tx" true changes status)
journals JournalStatus.preparing = refl
journals JournalStatus.staged = refl

-- The process dies at the operation after the first file was moved to its place.
abbrev dying : ℕ → Fate
dying n = if n == 16 then dies else works

abbrev pub working : ℕ → Fate
working n = works

apply-recover_atomic_example :
    let s₁ = left (apply format (λ p. false) dying "tx" true changes start) in
    let s₂ = left (recover format (λ p. false) working s₁) in
    (b : Bool) × (recover format (λ p. false) working s₁ ≡ (returned b, s₂))
    × (s₂.disk journal_path ≡ none)
    × ((visible s₂.disk ≡ visible start.disk)
        ⊎ (visible s₂.disk ≡ visible (changed_files changes start.disk)))
unfolding adaptive_harness.Paths.parse_path
apply-recover_atomic_example =
    apply-recover_atomic format (λ content. ap some (decode-encode content)) (λ p. false) "tx" true
      dying changes journals refl refl start refl working (λ n. refl)

abbrev ended : State
ended = left (apply format (λ p. false) working "tx" true changes start)

applies : apply format (λ p. false) working "tx" true changes start ≡ (returned tt, ended)
unfolding apply adaptive_harness.Init.valid_target adaptive_harness.Paths.parse_path
applies = refl

apply_returned_example :
    (ended.disk journal_path ≡ none)
    × (visible ended.disk ≡ visible (changed_files changes start.disk))
unfolding adaptive_harness.Paths.parse_path
apply_returned_example =
    apply_returned format (λ content. ap some (decode-encode content)) (λ p. false) "tx" true
      working changes journals refl refl start refl {s' = ended} applies

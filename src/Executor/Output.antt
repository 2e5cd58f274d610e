-- ===== src/Executor/Output.antt =====
-- The captured output as text: redaction of secrets, and the byte limit on both artifacts. The
-- UTF-8 codec is Python's: `decode` replaces what is no UTF-8, `decode_ignore` drops it.
use Prim.Native.Char.{code}
use Prim.Native.String.{◌++◌ as ◌<>◌}
use adaptive_harness.Prelude.{
  ℕ, zero, suc, ◌-◌, String, Bool, true, false, ◌&&◌, List, [], ◌∷◌, leb, ◌==◌, length, take,
  if◌then◌else◌, ltb, ◌≡◌, refl,
}
use Prim.Native.Nat.{◌/◌, ◌%◌}

abbrev pub starts_with : String → String → Bool
starts_with String.[] s = true
starts_with (String.◌∷◌ c p) String.[] = false
starts_with (String.◌∷◌ c p) (String.◌∷◌ d s) = code c == code d && starts_with p s

abbrev count_chars : String → ℕ
count_chars String.[] = 0
count_chars (String.◌∷◌ c s) = suc (count_chars s)

-- The occurrences of `old` from the left, where the first `skip` characters are part of one.
replace_from : String → String → ℕ → String → String
replace_from old new skip String.[] = ""
replace_from old new (suc skip) (String.◌∷◌ c s) = replace_from old new skip s
replace_from old new zero (String.◌∷◌ c s) =
    let after = new <> replace_from old new (count_chars old - 1) s in
    let past = String.◌∷◌ c (replace_from old new 0 s) in
    if starts_with old (String.◌∷◌ c s) then after else past

-- `s.replace(old, new)`, for a text `old` that is not empty
unfoldable pub replace : String → String → String → String
unfolding replace_from
replace old new s = replace_from old new 0 s

-- `_redact`, with the secrets in the constructor's order, the longest first
unfoldable pub redact : List String → String → String
redact [] value = value
redact (secret ∷ secrets) value = redact secrets (replace secret "[REDACTED]" value)

-- `s[:n]`
abbrev pub take_chars : ℕ → String → String
take_chars zero s = ""
take_chars (suc n) String.[] = ""
take_chars (suc n) (String.◌∷◌ c s) = String.◌∷◌ c (take_chars n s)

abbrev nth_text : List String → ℕ → String
nth_text [] i = ""
nth_text (x ∷ xs) zero = x
nth_text (x ∷ xs) (suc i) = nth_text xs i

-- A single decimal digit.
abbrev digit : ℕ → String
digit n = nth_text ("0" ∷ "1" ∷ "2" ∷ "3" ∷ "4" ∷ "5" ∷ "6" ∷ "7" ∷ "8" ∷ "9" ∷ []) n

digits_onto : ℕ → ℕ → String → String
digits_onto zero n rest = rest
digits_onto (suc fuel) n rest =
    let more = digits_onto fuel (n / 10) (digit (n % 10) <> rest) in
    if ltb n 10 then digit n <> rest else more

-- `str(n)`; a number has no more digits than its value, but for 0
unfoldable pub decimal : ℕ → String
unfolding digits_onto
decimal n = digits_onto (suc n) n ""

decimal_test : decimal 1207 ≡ "1207"
unfolding decimal
decimal_test = refl

replace_test : replace "ab" "x" "cababa" ≡ "cxxa"
unfolding replace
replace_test = refl

pub record Codec : Type 0 where
  pub encode : String → List ℕ
  pub decode : List ℕ → String
  pub decode_ignore : List ℕ → String

module _ (codec : Codec) where
  -- `_limit_text`
  unfoldable pub limit_text : ℕ → String → String
  limit_text max_bytes value =
      if max_bytes == 0 then "" else codec.decode_ignore (take max_bytes (codec.encode value))

  -- `_redact_and_limit`: both texts, and whether they were cut
  unfoldable pub redact_and_limit : List String → ℕ → List ℕ → List ℕ → String × String × Bool
  redact_and_limit secrets max_output_bytes stdout stderr =
      let stdout_text = redact secrets (codec.decode stdout) in
      let stderr_text = redact secrets (codec.decode stderr) in
      let limited_stdout = limit_text max_output_bytes stdout_text in
      let remaining = max_output_bytes - length (codec.encode limited_stdout) in
      if leb (length (codec.encode (stdout_text <> stderr_text))) max_output_bytes
      then (stdout_text, stderr_text, false)
      else (limited_stdout, limit_text remaining stderr_text, true)

-- ===== src/Executor/Truncation.antt =====
-- packages/executor/src/output-truncation.ts. An output is the list of its characters, and what the
-- function returns is given by its UTF-8 bytes.
use secure_openclaw_poc.Common.{
  ◌%◌, ◌*◌, ◌+◌, ◌++◌, ◌/◌, ◌==◌, Bool, List, [], codes, if◌then◌else◌, leb, length, ltb, suc, take,
  zero, ℕ, ◌∷◌,
}
pub mod Whole
mod Tests

-- UTF-8.
unfoldable pub utf8_char : ℕ → List ℕ
utf8_char c =
    if ltb c 128
    then c ∷ []
    else if ltb c 2048
    then (192 + c / 64) ∷ (128 + c % 64) ∷ []
    else if ltb c 65536
    then (224 + c / 4096) ∷ (128 + c / 64 % 64) ∷ (128 + c % 64) ∷ []
    else (240 + c / 262144) ∷ (128 + c / 4096 % 64) ∷ (128 + c / 64 % 64) ∷ (128 + c % 64) ∷ []

unfoldable pub encode : List ℕ → List ℕ
unfolding utf8_char
encode [] = []
encode (c ∷ cs) = utf8_char c ++ encode cs

-- `buf[end]`; past the end it is undefined, of which the mask makes 0.
unfoldable pub byte_at : List ℕ → ℕ → ℕ
byte_at [] i = 0
byte_at (b ∷ bs) zero = b
byte_at (b ∷ bs) (suc i) = byte_at bs i

-- `(b & 0xc0) === 0x80`, for a byte.
abbrev pub is_continuation : ℕ → Bool
is_continuation b = b / 64 == 2

-- The loop that walks back, from `end`.
unfoldable pub cut_back : (buf : List ℕ) → (end : ℕ) → ℕ
unfolding byte_at
cut_back buf zero = 0
cut_back buf (suc end) =
    let before = cut_back buf end in
    if is_continuation (byte_at buf (suc end)) then before else suc end

abbrev pub truncation_notice : List ℕ
truncation_notice = 10 ∷ 10 ∷ codes "[OUTPUT TRUNCATED — exceeded maximum size]"

unfoldable pub truncate_output : (output : List ℕ) (limit : ℕ) → List ℕ
unfolding encode cut_back
truncate_output output limit =
    let buf = encode output in
    if leb (length buf) limit
    then buf
    else take (cut_back buf limit) buf ++ encode truncation_notice

abbrev pub bash_output_limit : ℕ
bash_output_limit = 50 * 1024

unfoldable pub truncate_bash_output : (output : List ℕ) → List ℕ
unfolding truncate_output
truncate_bash_output output = truncate_output output bash_output_limit

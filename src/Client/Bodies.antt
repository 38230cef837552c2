-- ===== src/Client/Bodies.antt =====
-- github/client.rs: reading a response's body within its bound, and cutting the text of an error.
use gh_report.Prelude.{
  ℕ, zero, suc, ◌+◌, Bool, true, Option, none, some, [], ◌∷◌, ◌++◌, Text, codes, if◌then◌else◌, leb,
  ltb, length,
}

abbrev pub max_error_body_len : ℕ
max_error_body_len = 1024

-- the bytes at which a character of UTF-8 begins
abbrev pub is_boundary_byte : ℕ → Bool
is_boundary_byte b = if leb 128 b then leb 192 b else true

abbrev pub starts_character : Text → Bool
starts_character [] = true
starts_character (d ∷ s) = is_boundary_byte d

-- `&body[..body.floor_char_boundary(n)]`: the longest beginning of at most `n` bytes behind which a
-- character, or the end, stands
unfoldable pub floor_prefix : ℕ → Text → Text
floor_prefix n [] = []
floor_prefix zero (c ∷ s) = []
floor_prefix (suc n) (c ∷ s) = elim (floor_prefix n s) [
  | [] ↦ if starts_character s then c ∷ [] else []
  | d ∷ r ↦ c ∷ d ∷ r
]

-- the three bytes of `…`, and the rest of the mark
abbrev pub truncation_mark : Text
truncation_mark = 226 ∷ 128 ∷ 166 ∷ codes "[truncated]"

unfoldable pub truncate_error_body : Text → Text
unfolding floor_prefix
truncate_error_body body =
    if leb (length body) max_error_body_len
    then body
    else floor_prefix max_error_body_len body ++ truncation_mark

pub data BodyReadError : Type 0 where
  -- the declared length (u64), the bound
  content_length_exceeded : ℕ → ℕ → BodyReadError
  body_length_exceeded : ℕ → BodyReadError
  chunk_error : Text → BodyReadError

-- what arrives of a body: its chunks, and how the stream ends
pub data Stream : Type 0 where
  done : Stream
  broken : Text → Stream
  chunk : Text → Stream → Stream

pub data ReadResult : Type 0 where
  read : Text → ReadResult
  refused : BodyReadError → ReadResult

unfoldable pub read_chunks : ℕ → Text → Stream → ReadResult
read_chunks max_bytes body done = read body
read_chunks max_bytes body (broken e) = refused (chunk_error e)
read_chunks max_bytes body (chunk bytes rest) =
    let on = read_chunks max_bytes (body ++ bytes) rest in
    if ltb max_bytes (length body + length bytes)
    then refused (body_length_exceeded max_bytes)
    else on

unfoldable pub read_body_bytes_limited : Option ℕ → Stream → ℕ → ReadResult
unfolding read_chunks
read_body_bytes_limited none stream max_bytes = read_chunks max_bytes [] stream
read_body_bytes_limited (some len) stream max_bytes =
    let on = read_chunks max_bytes [] stream in
    if ltb max_bytes len then refused (content_length_exceeded len max_bytes) else on

-- ===== src/Streams/Chunked.antt =====
-- include/dracon/stream.h, class ChunkedStream: what it writes to the next layer.
pub mod Decoding
use getodac.Common.Bytes.{Bytes}
use getodac.Common.Numerals.{print_number}
use getodac.Common.{ℕ, ◌+◌, List, [], ◌∷◌, ◌++◌, ◌==◌, if◌then◌else◌, length, flat}
use getodac.Http.Status.{crlf}

-- `std::hex << size << CrlfString`
unfoldable pub chunk_header : ℕ → Bytes
chunk_header size = print_number 16 size ++ crlf

-- `write(ConstBuffer)`: the calls of the next layer's `write`, each with its buffers.
unfoldable pub write_chunk : Bytes → List (List Bytes)
unfolding chunk_header
write_chunk buff =
    if length buff == 0 then [] else (chunk_header (length buff) ∷ buff ∷ crlf ∷ []) ∷ []

-- `size += buffer.length` for each buffer.
unfoldable pub total_size : List Bytes → ℕ
total_size [] = 0
total_size (b ∷ bs) = length b + total_size bs

-- `write(std::vector<ConstBuffer>)`
unfoldable pub write_chunks : List Bytes → List (List Bytes)
unfolding chunk_header total_size
write_chunks buffers =
    if total_size buffers == 0
    then []
    else (chunk_header (total_size buffers) ∷ buffers ++ crlf ∷ []) ∷ []

-- `EndOfChunckedStream`, which the destructor writes.
abbrev pub end_of_chunked_stream : Bytes
end_of_chunked_stream = b'0' ∷ crlf ++ crlf

-- The life of a stream: its writes, of one buffer or of several, and the destructor.
pub data Call : Type 0 where
  one : Bytes → Call
  several : List Bytes → Call

unfoldable pub run_call : Call → List (List Bytes)
unfolding write_chunk write_chunks
run_call (one buff) = write_chunk buff
run_call (several buffers) = write_chunks buffers

unfoldable pub run : List Call → List (List Bytes)
unfolding run_call
run [] = (end_of_chunked_stream ∷ []) ∷ []
run (call ∷ calls) = run_call call ++ run calls

-- The bytes that reach the next layer.
abbrev pub wire : List (List Bytes) → Bytes
wire [] = []
wire (bs ∷ bss) = flat bs ++ wire bss

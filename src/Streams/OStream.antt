-- ===== src/Streams/OStream.antt =====
-- include/dracon/stream.h, class OStreamBuffer: the characters that a handler prints through a
-- `std::ostream`, and the writes that the stream below gets. `capacity` is that of the string
-- `m_buffer`, which `reserveBuffer` keeps and which is positive.
pub mod Delivery
mod Tests
use getodac.Common.Bytes.{Bytes}
use getodac.Common.{
  ℕ, zero, suc, ◌-◌, true, false, List, [], ◌∷◌, ◌++◌, leb, ltb, min, ◌==◌, if◌then◌else◌, length,
  take, drop,
}
use getodac.Streams.Chunked.{Call, one, several}

-- `m_buffer`, and the writes of the stream below, in order.
pub record OStreamBuffer : Type 0 where
  pub buffer : Bytes
  pub calls : List Call

-- `if (!m_buffer.empty()) { m_stream.write(m_buffer); m_buffer.clear(); ... }`
unfoldable pub sync : OStreamBuffer → OStreamBuffer
sync o =
    if length o.buffer == 0 then o else record { buffer = []; calls = o.calls ++ one o.buffer ∷ [] }

-- `if (m_buffer.size() >= m_buffer.capacity()) sync();`
unfoldable pub sync_full : ℕ → OStreamBuffer → OStreamBuffer
unfolding sync
sync_full capacity o = if leb capacity (length o.buffer) then sync o else o

unfoldable pub overflow : ℕ → ℕ → OStreamBuffer → OStreamBuffer
unfolding sync_full
overflow capacity c o = let s = sync_full capacity o in record s { buffer = s.buffer ++ c ∷ [] }

-- A text that is longer than the buffer is written at once, behind what is in the buffer.
unfoldable pub write_through : Bytes → OStreamBuffer → OStreamBuffer
write_through s o =
    let call = if length o.buffer == 0 then one s else several (o.buffer ∷ s ∷ []) in
    record { buffer = []; calls = o.calls ++ call ∷ [] }

-- The loop of `xsputn`, for the characters `s` that are left of `n`: what it returns, and the
-- state. Each round takes a character at least, so that a unit of fuel for each is enough.
unfoldable pub put_loop : ℕ → ℕ → ℕ → Bytes → OStreamBuffer → ℕ × OStreamBuffer
unfolding sync_full write_through
put_loop zero capacity n s o = (n, o)
put_loop (suc fuel) capacity n [] o = (n, o)
put_loop (suc fuel) capacity n (c ∷ s) o = elim (ltb capacity (length (c ∷ s))) [
  | true ↦ (length (c ∷ s), write_through (c ∷ s) o)
  | false ↦
      let t = sync_full capacity o in
      let len = min (length (c ∷ s)) (capacity - length t.buffer) in
      put_loop fuel capacity n (drop len (c ∷ s))
        (record t { buffer = t.buffer ++ take len (c ∷ s) })
]

unfoldable pub xsputn : ℕ → Bytes → OStreamBuffer → ℕ × OStreamBuffer
unfolding put_loop
xsputn capacity s o = put_loop (length s) capacity (length s) s o

-- What a handler does with the `std::ostream`.
pub data Print : Type 0 where
  puts : Bytes → Print
  put_char : ℕ → Print
  flushes : Print

unfoldable pub print : ℕ → Print → OStreamBuffer → OStreamBuffer
unfolding xsputn overflow sync
print capacity (puts s) o = (xsputn capacity s o).1
print capacity (put_char c) o = overflow capacity c o
print capacity flushes o = sync o

unfoldable pub print_all : ℕ → List Print → OStreamBuffer → OStreamBuffer
unfolding print
print_all capacity [] o = o
print_all capacity (p ∷ ps) o = print_all capacity ps (print capacity p o)

-- From the constructor to the destructor: all the writes.
unfoldable pub print_stream : ℕ → List Print → List Call
unfolding print_all sync
print_stream capacity ps = (sync (print_all capacity ps (record { buffer = []; calls = [] }))).calls

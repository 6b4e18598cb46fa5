-- ===== src/Streams/OStream/Tests.antt =====
-- A handler that prints over a buffer of four characters.
use getodac.Common.Bytes.{codes}
use getodac.Common.{◌≤◌, ◌≡◌, refl, List, [], ◌∷◌, ◌++◌, some, length, arith}
use getodac.Streams.Chunked.Decoding.{decode}
use getodac.Streams.Chunked.{one, several, run, wire}
use getodac.Streams.OStream.Delivery.{printed, text_of, print_all_lem, decode-print_stream}
use getodac.Streams.OStream.{OStreamBuffer, Print, puts, put_char, flushes, print_all, print_stream}

program : Unit {0}
unfolding print_stream
program = tt

abbrev prints : List Print
prints =
    puts (codes "abc") ∷ put_char 100 ∷ puts (codes "efghijk") ∷ flushes ∷ puts (codes "l") ∷ []

tests : print_stream 4 prints ≡ several (codes "abcd" ∷ codes "efghijk" ∷ []) ∷ one (codes "l") ∷ []
unfolding program
tests = refl

abbrev empty : OStreamBuffer
empty = record { buffer = []; calls = [] }

print_all_lem_example :
    (printed (print_all 4 prints empty) ≡ codes "abcdefghijkl")
    × (length (print_all 4 prints empty).buffer ≤ 4)
print_all_lem_example = print_all_lem 4 prints empty (omega arith) (omega arith)

decode-print_stream_example :
    decode 3 (wire (run (print_stream 4 prints)) ++ codes "HTTP")
    ≡ some (text_of prints, codes "HTTP")
unfolding program
decode-print_stream_example =
    decode-print_stream 4 prints (codes "HTTP") 3 (omega arith) (omega arith)

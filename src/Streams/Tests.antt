-- ===== src/Streams/Tests.antt =====
-- The write loops and the chunked stream at concrete values.
use getodac.Common.Bytes.{Bytes, codes}
use getodac.Common.Int.{pos, negsuc}
use getodac.Common.{ℕ, suc, ◌≡◌, refl, List, [], ◌∷◌, ◌++◌, none, some, take, flat, arith}
use getodac.Streams.Chunked.Decoding.{decode, payloads, decode-run}
use getodac.Streams.Chunked.{Call, one, several, run, wire}
use getodac.Streams.Write.Calls.{gather-take}
use getodac.Streams.Write.Single.{IsPrefix, write-IsPrefix, Drains, write-Drains}
use getodac.Streams.Write.Vector.{
  write_all-prefix, DrainsInside, write_all-DrainsInside, write_all-boundary,
}
use getodac.Streams.Write.{Round, sent, returned, threw, write, write_all, gather, ssl_payload}

program : Unit {0}
unfolding write write_all gather ssl_payload run
program = tt

-- The socket takes `n + 1` bytes.
abbrev takes : ℕ → Round
takes n = record { answer = record { res = pos (suc n); ec = none }; yielded = none }

-- The socket is full, and becomes writable.
abbrev full : Round
full = record { answer = record { res = pos 0; ec = none }; yielded = none }

abbrev broken : Round
broken = record { answer = record { res = negsuc 0; ec = some 32 }; yielded = none }

abbrev buffer : Bytes
buffer = codes "abcde"

abbrev buffers : List Bytes
buffers = codes "ab" ∷ codes "cde" ∷ []

tests :
    (write (takes 1 ∷ full ∷ takes 2 ∷ []) buffer ≡ returned buffer)
    × (write (takes 1 ∷ broken ∷ []) buffer ≡ threw 32 (codes "ab"))
    × (write_all (takes 2 ∷ takes 1 ∷ []) buffers ≡ returned buffer)
    × (gather 4 buffers ≡ codes "abcd")
unfolding program
tests = (refl, refl, refl, refl)

write-IsPrefix_example : IsPrefix (write (takes 1 ∷ broken ∷ []) buffer) buffer
write-IsPrefix_example = write-IsPrefix (takes 1 ∷ broken ∷ []) buffer

buffer-Drains : Drains (takes 1 ∷ full ∷ takes 2 ∷ []) 5
buffer-Drains =
    Drains.piece (takes 1) 5 1 refl (omega arith)
      (Drains.wait full refl refl (Drains.piece (takes 2) 3 2 refl (omega arith) (Drains.done [])))

write-Drains_example : write (takes 1 ∷ full ∷ takes 2 ∷ []) buffer ≡ returned buffer
write-Drains_example = write-Drains buffer refl buffer-Drains

write_all-prefix_example :
    (rest : Bytes) × (sent (write_all (takes 2 ∷ broken ∷ []) buffers) ++ rest ≡ flat buffers)
write_all-prefix_example = write_all-prefix (takes 2 ∷ broken ∷ []) buffers

buffers-DrainsInside : DrainsInside (takes 2 ∷ takes 1 ∷ []) buffers
buffers-DrainsInside =
    DrainsInside.piece (takes 2) 2 (codes "ab" ∷ []) (codes "c") (codes "de") [] refl refl
      (omega arith) (λ e. cc) refl (DrainsInside.last (takes 1) 1 refl refl)

write_all-DrainsInside_example : write_all (takes 2 ∷ takes 1 ∷ []) buffers ≡ returned buffer
write_all-DrainsInside_example = write_all-DrainsInside buffers-DrainsInside

write_all-boundary_example : write_all (takes 1 ∷ takes 2 ∷ []) buffers ≡ returned (codes "ab")
write_all-boundary_example =
    write_all-boundary (codes "ab" ∷ []) (codes "cde") [] (takes 1) (takes 2 ∷ []) 1 refl refl
      (λ e. cc)

gather-take_example : gather 4 buffers ≡ take 4 (flat buffers)
gather-take_example = gather-take 4 buffers

abbrev calls : List Call
calls = one (codes "abcdefghijklmnopqrst") ∷ one [] ∷ several buffers ∷ []

decode-run_example :
    decode 4 (wire (run calls) ++ codes "rest") ≡ some (payloads calls, codes "rest")
decode-run_example = decode-run calls (codes "rest") 4 (omega arith)

-- ===== src/Utils/Buffer/Tests.antt =====
-- A buffer of four bytes.
use getodac.Common.Bytes.{codes}
use getodac.Common.{◌≡◌, refl, arith}
use getodac.Utils.Buffer.Cursor.{IsWithin}
use getodac.Utils.Buffer.{
  Buffer, reset, resize, zeros, advance, current_string, copy_in, commit, set_current_size,
  assign_string, prepend_string,
}

program : Unit {0}
unfolding reset resize zeros advance current_string copy_in commit set_current_size assign_string
    prepend_string
program = tt

abbrev four : Buffer
four = record { bytes = codes "abcd"; current = 1; end_ = 3 }

tests :
    (commit four ≡ record { bytes = codes "bccd"; current = 0; end_ = 2 })
    × (prepend_string (codes "xy") four ≡ record { bytes = codes "xycd"; current = 2; end_ = 4 })
    × (prepend_string (codes "vwxyz") four
        ≡ record { bytes = codes "vwxyz"; current = 0; end_ = 5 })
unfolding program
tests = (refl, refl, refl)

four-IsWithin : IsWithin four
four-IsWithin = record { ordered = omega arith; inside = omega arith }

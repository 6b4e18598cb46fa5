-- ===== src/Http/Tests.antt =====
-- Responses and requests at concrete values.
use getodac.Common.Bytes.{codes, bytes_eq}
use getodac.Common.Int.{pos, negsuc}
use getodac.Common.Maps.{find}
use getodac.Common.Numerals.{print_number}
use getodac.Common.{◌≡◌, refl, [], ◌∷◌, some, arith, All}
use getodac.Http.Message.Framing.{IsField, response_lines, read_head-to_string}
use getodac.Http.Message.Lines.{read_head}
use getodac.Http.Message.{to_string}
use getodac.Http.Response.{Fields, Response}

program : Unit {0}
unfolding find print_number bytes_eq
program = tt

abbrev ok_response : Response
ok_response = record {
  fields = (codes "Content-Type", codes "text/plain") ∷ [];
  status_code = 200;
  body = codes "hi";
  content_length = 2;
  keep_alive = negsuc 0;
}

fields-IsField : All IsField ok_response.fields
fields-IsField = ((λ e. cc, ground arith, ground arith), tt)

read_head-to_string_example :
    read_head [] (to_string ok_response (pos 5))
    ≡ some (response_lines ok_response (pos 5), codes "hi")
read_head-to_string_example = read_head-to_string ok_response (pos 5) fields-IsField

abbrev posted : Fields
posted = (codes "Host", codes "a") ∷ (codes "Content-Length", codes "120") ∷ []

posted_length : find (codes "Content-Length") posted ≡ some (print_number 10 120)
unfolding program
posted_length = refl

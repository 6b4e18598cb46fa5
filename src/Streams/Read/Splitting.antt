-- ===== src/Streams/Read/Splitting.antt =====
-- What the request gets of its headers, by the pieces in which the parser reports them.
use getodac.Common.Bytes.{Bytes, bytes_eq_iff}
use getodac.Common.Maps.{assign, find, find-assign}
use getodac.Common.{◌≡◌, ◌≢◌, refl, List, [], ◌∷◌, Option, none, some, ◌∙◌, arith}
use getodac.Exceptions.{Result, ok}
use getodac.Http.Response.{Fields}
use getodac.Streams.Read.{
  Callback, header_field, header_value, ParserData, on_callback, on_callbacks,
}

-- The callbacks of headers that are reported whole.
abbrev pub whole_headers : List (Bytes × Bytes) → List Callback
whole_headers [] = []
whole_headers (h ∷ hs) = header_field h.0 ∷ header_value h.1 ∷ whole_headers hs

abbrev pub assign_all : List (Bytes × Bytes) → Fields → Fields
assign_all [] fields = fields
assign_all (h ∷ hs) fields = assign_all hs (assign h.0 h.1 fields)

-- What two pieces `v` and `w` of a value under a name come to, for what has stood under it.
abbrev pub Splits :
    (name v w : Bytes) → (before : Fields) → (found : Option Bytes) → (behind : Fields) → Type 0
Splits name v w before none behind = (find name behind ≡ some v) × (find [] behind ≡ some w)
Splits name v w before (some u) behind =
    (find name behind ≡ some w) × (find [] behind ≡ find [] before)

module _ {B : Type 0} (append : B → Bytes → Result B) where
  -- Headers that are reported whole are assigned to the request in order; the other data of the
  -- request stays.
  pub on_callbacks-whole_headers :
      (hs : List (Bytes × Bytes)) (d : ParserData B)
      → (d' : ParserData B) × (on_callbacks append (whole_headers hs) d ≡ ok d')
        × (d'.req ≡ record d.req { fields = assign_all hs d.req.fields })
  unfolding on_callbacks on_callback
  on_callbacks-whole_headers [] d = (d, refl, refl)
  on_callbacks-whole_headers (h ∷ hs) d = on_callbacks-whole_headers hs (record d {
    req = record d.req { fields = assign h.0 h.1 d.req.fields };
    field = elim (find h.0 d.req.fields) [ none ↦ [] | some v ↦ h.0 ];
  })

  -- A value that the parser reports in two pieces, under a name that is not empty, is not joined.
  -- If the request has no field of that name, the first piece stands under it and the rest under
  -- the empty name. If it has one, only the rest stands under the name, and what stands under the
  -- empty name stays.
  pub on_callbacks-split :
      (name v w : Bytes) (d : ParserData B)
      → name ≢ []
      → (d' : ParserData B) × (on_callbacks append
            (header_field name ∷ header_value v ∷ header_value w ∷ [])
            d
          ≡ ok d')
        × Splits name v w d.req.fields (find name d.req.fields) d'.req.fields
  unfolding on_callbacks on_callback
  on_callbacks-split name v w d h = named (find name d.req.fields)
    where
      named :
          (found : Option Bytes)
          → (d' : ParserData B) × (on_callback append (header_value w) (record d {
            req = record d.req { fields = assign name v d.req.fields };
            field = elim found [ none ↦ [] | some u ↦ name ];
          })
              ≡ ok d')
            × Splits name v w d.req.fields found d'.req.fields
      named none =
          let fields = assign name v d.req.fields in
          (
            _,
            refl,
            (
              find-assign [] name w fields
                  ∙ ground (
                    arith,
                    bytes_eq_iff [] name,
                    find-assign name name v d.req.fields,
                    bytes_eq_iff name name,
                  ),
              find-assign [] [] w fields ∙ ground (arith, bytes_eq_iff [] []),
            ),
          )
      named (some u) =
          let fields = assign name v d.req.fields in
          (
            _,
            refl,
            (
              find-assign name name w fields ∙ ground (arith, bytes_eq_iff name name),
              find-assign name [] w fields
                  ∙ ground (arith, bytes_eq_iff name [], find-assign name [] v d.req.fields),
            ),
          )

-- ===== src/Tests/Framing.antt =====
-- A message whose data travels as a binary payload, with a small codec.
use ii_server_host.BinaryFrame.Paths.{SortedAlong, path_index}
use ii_server_host.Json.Laws.{IsSorted}
use ii_server_host.Prelude.{
  ◌==◌, if◌then◌else◌, lt→ltb, if_rule, length, ℕ, ◌+◌, ◌≤◌, ◌<◌, ◌≡◌, refl, sym, ap, ◌∙◌, ◌≢◌,
  false≢true, false, Option, none, some, [], ◌∷◌, arith,
}
use ii_server_host.Prelude.Text.{Bytes, text, eq, is_empty, lt, to_latin1}
use ii_server_host.BinaryFrame.{
  Codec, KeyPath, paths, at, replace, maximum_payload, maximum_header, be32, header_object,
  frame_of, get_path, checked, candidate, framed, emit, encode_from, encode, decode,
}
use ii_server_host.BinaryFrame.RoundTrip.{ReadsBack, decode-encode, length-encode-le}
use ii_server_host.BinaryFrame.Frames.{NoMark}
use ii_server_host.Json.{
  undefined, str, obj, Object, end, field, is_undefined, is_string, is_object, to_str, to_object,
  to_int, value, remove, place, insert, object,
}

abbrev data_message : Object
data_message = field (text "result") (obj (field (text "data") (str (b'A' ∷ b'B' ∷ [])) end)) end

-- The header for each path, by its number.
abbrev header_at : ℕ → KeyPath → Object
header_at i p = header_object i (replace data_message p undefined)

abbrev found_header : ℕ → Option KeyPath → Option Object
found_header i none = none
found_header i (some p) = some (header_at i p)

abbrev number_in : Option ℕ → Bytes
number_in none = 0 ∷ []
number_in (some i) = i ∷ []

abbrev read_header : Bytes → Option Object
read_header [] = none
read_header (i ∷ rest) = found_header i (get_path paths i)

abbrev letters_of : Bytes → Bytes
letters_of [] = []
letters_of (b ∷ bs) = (if b == 0 then b'A' else b'B') ∷ letters_of bs

abbrev bytes_of : Bytes → Bytes
bytes_of [] = []
bytes_of (u ∷ us) = (if u == b'A' then 0 else 1) ∷ bytes_of us

abbrev small_codec : Codec
small_codec = record {
  to_json = λ o. number_in (to_int (value (text "path") o));
  from_json = read_header;
  to_base64 = letters_of;
  from_base64 = λ b. some (bytes_of b);
}

letters_of-NoMark : (d : Bytes) → NoMark (letters_of d)
letters_of-NoMark [] = tt
letters_of-NoMark (b ∷ bs) = (
  if_rule (λ u. u ≢ b'?') (b == 0) (λ _ e. omega (arith, e)) (λ _ e. omega (arith, e)),
  letters_of-NoMark bs,
)

number-header :
    (i : ℕ) (r : Object)
    → i < 2147483648
    → number_in (to_int (value (text "path") (header_object i r))) ≡ i ∷ []
unfolding header_object object insert place is_undefined text eq lt value to_int
number-header i r b = rw (lt→ltb i 2147483648 b) refl

small_codec-ReadsBack : ReadsBack small_codec data_message
small_codec-ReadsBack = record {
  header = λ i p h.
      rw
        (
          number-header i (replace data_message p undefined) (omega (arith, (path_index i p h).0)),
          h,
        )
        refl;
  empty = refl;
  letters = letters_of-NoMark;
}

is_empty-encode : is_empty (encode small_codec data_message) ≡ false
unfolding at be32 candidate checked emit encode encode_from eq frame_of framed header_object insert
    is_object is_string is_undefined lt object paths place remove replace text to_int to_latin1
    to_object to_str value
is_empty-encode = refl

decode-encode_example : decode small_codec (encode small_codec data_message) ≡ data_message
unfolding SortedAlong IsSorted paths text value eq to_object encode encode_from
decode-encode_example =
    decode-encode small_codec data_message
      (((tt, tt), (tt, tt)), (((tt, tt), ((tt, tt), tt)), (((tt, tt), (tt, tt)), tt)))
      small_codec-ReadsBack (λ e. false≢true (sym is_empty-encode ∙ ap (λ xs. is_empty xs) e))

length-encode-le_example :
    length (encode small_codec data_message) ≤ maximum_header + maximum_payload + 8
length-encode-le_example = length-encode-le small_codec data_message

-- ===== src/BinaryFrame/RoundTrip.antt =====
-- Decoding undoes encoding, and a frame fits the limits that decoding sets.
use ii_server_host.Prelude.{
  lt→ltb, length, length-append, All, empty_cases, ℕ, ◌+◌, ◌≤◌, ◌<◌, ◌≡◌, sym, ap, ◌∙◌, ◌≢◌, inl,
  inr, true, none, some, [], ◌∷◌, arith,
}
use ii_server_host.Prelude.Text.{Bytes, text, eq, lt}
use ii_server_host.Json.{
  undefined, str, Object, is_undefined, is_object, to_object, to_int, value, size, place, insert,
  object,
}
use ii_server_host.BinaryFrame.{
  Codec, KeyPath, paths, at, replace, maximum_payload, maximum_header, be32, header_object,
  frame_of, open_parent, get_path, encode_from, encode, refill, path_of, decode_header, decode,
}
use ii_server_host.BinaryFrame.Paths.{
  SortedAlong, replace-replace, open_parent-replace, path_index, All-get_path,
}
use ii_server_host.BinaryFrame.Frames.{
  NoMark, to_latin1_id, decode-frame_of, encode_from-Written, candidate_checked,
}

module _ (codec : Codec) where
  open codec use {to_json, from_json, to_base64}

  -- Qt's documented behaviour, at the message: the parser reads each header back that the writer
  -- writes for it, refuses an empty input, and base64 is written in letters without a question
  -- mark.
  pub record ReadsBack (m : Object) : Type 0 where
    pub header :
        (i : ℕ) (p : KeyPath)
        → get_path paths i ≡ some p
        → from_json (to_json (header_object i (replace m p undefined)))
          ≡ some (header_object i (replace m p undefined))
    pub empty : from_json [] ≡ none
    pub letters : (d : Bytes) → NoMark (to_base64 d)

  nonempty_of_reads :
      (h : Bytes) (o : Object) → from_json [] ≡ none → from_json h ≡ some o → 0 < length h
  nonempty_of_reads [] o e r = cc
  nonempty_of_reads (x ∷ xs) o e r = omega arith

  decode_header-header_object :
      (i : ℕ) (p : KeyPath) (r : Object) (d : Bytes)
      → get_path paths i ≡ some p
      → decode_header codec (some (header_object i r)) d ≡ refill codec r d (some p)
  unfolding decode_header header_object object insert place is_undefined text eq lt size value
      is_object to_object to_int path_of
  decode_header-header_object i p r d h =
      rw (lt→ltb i 2147483648 (omega (arith, (path_index i p h).0)), h)

  refill_lem :
      (r : Object) (d : Bytes) (p : KeyPath)
      → open_parent r p ≡ true
      → refill codec r d (some p) ≡ replace r p (str (to_base64 d))
  unfolding refill
  refill_lem r d p h = rw h

  -- Decoding what `encode` has written gives the message back, if each object on the three paths is
  -- sorted by key and the JSON and base64 routines read back what they write at this message.
  pub decode-encode :
      (m : Object)
      → All (SortedAlong m) paths
      → ReadsBack m
      → encode codec m ≢ []
      → decode codec (encode codec m) ≡ m
  unfolding encode
  decode-encode m sorted reads written =
      let w = encode_from-Written codec 0 paths m written in
      let (defined, is_text, some_data, bounded, canonical) =
        candidate_checked codec (at m w.path) w.payload w.chosen in
      let along = All-get_path (SortedAlong m) paths w.index w.path sorted w.at_index in
      let from_zero : 0 + w.index ≡ w.index = omega arith in
      let r = replace m w.path undefined in
      let header = to_json (header_object w.index r) in
      let back = reads.header w.index w.path w.at_index in
      let text_back : str (to_base64 w.payload) ≡ at m w.path =
        ap str (canonical ∙ to_latin1_id _ (rw canonical at (reads.letters w.payload)))
        ∙ sym is_text in
      rw (w.frame, from_zero)
        (decode-frame_of codec header w.payload (nonempty_of_reads header _ reads.empty back)
            (rw from_zero at w.fits) some_data bounded
          ∙ ap (λ o. decode_header codec o w.payload) back
          ∙ decode_header-header_object w.index w.path r w.payload w.at_index
          ∙ refill_lem r w.payload w.path
              (open_parent-replace m w.path (path_index w.index w.path w.at_index).1 along defined)
          ∙ ap (replace r w.path) text_back
          ∙ replace-replace m w.path along defined)

  -- A frame that `encode` writes fits the limit that `decode` sets on a frame.
  pub length-encode-le :
      (m : Object) → length (encode codec m) ≤ maximum_header + maximum_payload + 8
  unfolding encode frame_of be32 text
  length-encode-le m = elim (empty_cases (encode_from codec 0 paths m)) [
    | inl e ↦ rw e (omega arith)
    | inr n ↦
        let w = encode_from-Written codec 0 paths m n in
        let (defined, is_text, some_data, bounded, canonical) =
          candidate_checked codec (at m w.path) w.payload w.chosen in
        let header = to_json (header_object (0 + w.index) (replace m w.path undefined)) in
        rw w.frame (omega (arith, w.fits, length-append header w.payload))
  ]

-- ===== src/BinaryFrame/Frames.antt =====
-- The parts of a frame, and what `encode` has checked when it writes one.
use ii_server_host.Prelude.{
  ltb, Bool-cases, Option-cases, length, drop, length-append, take-append_length,
  drop-append_length, All, ℕ, suc, ◌+◌, ◌≤◌, ◌<◌, ◌≡◌, refl, ap, ◌≢◌, inl, inr, false, Option, none,
  some, List, [], ◌∷◌, ◌++◌, arith,
}
use ii_server_host.Prelude.Text.{Text, Bytes, text, eq_sound, starts_with, to_latin1}
use ii_server_host.Json.{Json, null, undefined, str, Object, is_undefined, is_string, to_str}
use ii_server_host.BinaryFrame.{
  Codec, KeyPath, at, replace, maximum_payload, maximum_header, be32, from_be32, header_object,
  frame_of, get_path, checked, candidate, framed, emit, encode_from, decode_header, decode,
}

-- No byte is a question mark, which `toLatin1` writes for what it cannot encode.
abbrev pub NoMark : Bytes → Type 0
NoMark = All (λ u. u ≢ b'?')

pub to_latin1_id : (s : Text) → NoMark (to_latin1 s) → to_latin1 s ≡ s
unfolding to_latin1
to_latin1_id [] h = refl
to_latin1_id (u ∷ us) h = elim (Bool-cases (ltb u 256)) [
  | inl y ↦ rw y (ap (◌∷◌ u) (to_latin1_id us h.1))
  | inr n ↦ absurd (h.0 (rw n))
]

from_be32-be32 : (n : ℕ) (rest : Bytes) → n ≤ maximum_header → from_be32 (be32 n ++ rest) ≡ n
unfolding from_be32 be32
from_be32-be32 n rest h = omega arith

drop_prefix : (n : ℕ) (p rest : Bytes) → length p ≡ 8 → drop (8 + n) (p ++ rest) ≡ drop n rest
drop_prefix n (a ∷ b ∷ c ∷ d ∷ e ∷ f ∷ g ∷ h ∷ []) rest l = rw eight_more
  where
    eight_more : 8 + n ≡ suc (suc (suc (suc (suc (suc (suc (suc n)))))))
    eight_more = omega arith
drop_prefix n _ rest l = absurd (omega arith)

module _ (codec : Codec) where
  open codec use {to_json, from_json, to_base64, from_base64}

  -- Cutting a frame gives its header and its data.
  pub decode-frame_of :
      (header decoded : Bytes)
      → 0 < length header
      → length header ≤ maximum_header
      → 0 < length decoded
      → length decoded ≤ maximum_payload
      → decode codec (frame_of header decoded) ≡ decode_header codec (from_json header) decoded
  unfolding decode frame_of text starts_with be32
  decode-frame_of header decoded a b c d =
      let n = length header in
      rw
        (
          from_be32-be32 n (header ++ decoded) b,
          drop_prefix n (73 ∷ 83 ∷ 66 ∷ 49 ∷ be32 n) (header ++ decoded) refl,
          take-append_length header decoded,
          drop-append_length header decoded,
          length-append header decoded,
        )
        (ground arith)

  pub record Written (m : Object) (i : ℕ) (ps : List KeyPath) (f : Bytes) : Type 0 where
    pub index : ℕ
    pub path : KeyPath
    pub payload : Bytes
    pub at_index : get_path ps index ≡ some path
    pub chosen : candidate codec (at m path) ≡ some payload
    pub fits :
        length (to_json (header_object (i + index) (replace m path undefined))) ≤ maximum_header
    pub frame :
        f ≡ frame_of (to_json (header_object (i + index) (replace m path undefined))) payload

  Written-suc :
      (m : Object) (i : ℕ) (p : KeyPath) (ps : List KeyPath) (f : Bytes)
      → Written m (suc i) ps f
      → Written m i (p ∷ ps) f
  unfolding get_path
  Written-suc m i p ps f w =
      let later : suc i + w.index ≡ i + suc w.index = omega arith in
      record {
        index = suc w.index;
        path = w.path;
        payload = w.payload;
        at_index = w.at_index;
        chosen = w.chosen;
        fits = rw (← later) w.fits;
        frame = rw (← later) w.frame;
      }

  framed_fits :
      (header decoded : Bytes)
      → framed codec header decoded ≢ []
      → (length header ≤ maximum_header) × (framed codec header decoded ≡ frame_of header decoded)
  unfolding framed
  framed_fits header decoded h = ground arith

  pub encode_from-Written :
      (i : ℕ) (ps : List KeyPath) (m : Object)
      → encode_from codec i ps m ≢ []
      → Written m i ps (encode_from codec i ps m)
  unfolding encode_from emit get_path
  encode_from-Written i [] m h = absurd (h refl)
  encode_from-Written i (p ∷ ps) m h = elim (Option-cases (candidate codec (at m p))) [
    | inl e ↦
        rw (e, emit) (Written-suc m i p ps _ (encode_from-Written (suc i) ps m (rw (e, emit) at h)))
    | inr (d, e) ↦
        let same : i + 0 ≡ i = omega arith in
        let fit = framed_fits _ d (rw (e, emit) at h) in
        rw (e, emit)
          (record {
            index = 0;
            path = p;
            payload = d;
            at_index = refl;
            chosen = e;
            fits = rw same fit.0;
            frame = rw same fit.1;
          })
  ]

  checked_bounds :
      (encoded : Bytes) (o : Option Bytes) (d : Bytes)
      → checked codec encoded o ≡ some d
      → (0 < length d) × (length d ≤ maximum_payload) × (to_base64 d ≡ encoded)
  unfolding checked
  checked_bounds encoded none d h = cc
  checked_bounds encoded (some []) d h = cc
  checked_bounds encoded (some (x ∷ xs)) d h = ground (arith, eq_sound (to_base64 (x ∷ xs)) encoded)

  -- What the tests of a candidate have checked.
  pub candidate_checked :
      (v : Json) (d : Bytes)
      → candidate codec v ≡ some d
      → (is_undefined v ≡ false)
        × (v ≡ str (to_str v))
        × (0 < length d)
        × (length d ≤ maximum_payload)
        × (to_base64 d ≡ to_latin1 (to_str v))
  unfolding candidate is_string is_undefined checked to_str
  candidate_checked (str s) d h =
      let encoded = to_latin1 s in
      let bounds = checked_bounds encoded (from_base64 encoded) d in ground (arith, bounds)
  candidate_checked null d h = cc
  candidate_checked _ d h = cc

-- ===== src/Gateway/Codec/RoundTrip.antt =====
-- `encode` and `decodeFrame` of gateway/gateway.go are inverse, given what encoding/json documents.
use warmbly_go.Common.{Option, some, List, [], ◌∷◌, ◌≡◌, ◌∙◌, arith}
use warmbly_go.Common.Text.{String, Bytes, eq_iff}
use warmbly_go.Gateway.Codec.{
  Codec, Message, encode, decode_frame, nullable, or_blank, or_empty_object, decode_elements,
}

-- encoding/json on arrays of nullable strings and raw values: marshalling succeeds, the elements come
-- back in order, a raw value unchanged, a string as itself, and null leaves a string empty.
pub record IsJson (k : Codec) : Type 0 where
  pub quote : Option String → Bytes
  pub quoted : (s : Option String) → k.string_of (quote s) ≡ some (or_blank s)
  pub marshalled :
      (a b : Option String) (t e : String) (p : Bytes)
      → (out : Bytes) × (k.marshal_frame a b t e p ≡ some out)
        × (k.elements out ≡ some (quote a ∷ quote b ∷ quote (some t) ∷ quote (some e) ∷ p ∷ []))

or_blank-nullable : (s : String) → or_blank (nullable s) ≡ s
or_blank-nullable s = ground (arith, eq_iff s "")

decode_frame-of :
    (k : Codec) (out : Bytes) (raw : List Bytes)
    → k.elements out ≡ some raw
    → decode_frame k out ≡ decode_elements k raw
unfolding decode_frame
decode_frame-of k out raw e = ground (arith, e)

decode_elements-quoted :
    (k : Codec) (j : IsJson k) (f : Message) (a b : Option String)
    → or_blank a ≡ f.join_ref
    → or_blank b ≡ f.ref
    → decode_elements k
        (j.quote a ∷ j.quote b ∷ j.quote (some f.topic) ∷ j.quote (some f.event) ∷ f.payload ∷ [])
      ≡ some f
decode_elements-quoted k j f a b p q =
    ground (arith, j.quoted a, j.quoted b, j.quoted (some f.topic), j.quoted (some f.event), p, q)

-- A frame that `encode` writes is read back by `decodeFrame`, an empty payload as an empty object.
decode_frame-encode :
    (k : Codec)
    → IsJson k
    → (f : Message)
    → (out : Bytes) × (encode k f ≡ some out)
      × (decode_frame k out ≡ some (record f { payload = or_empty_object f.payload }))
unfolding encode
decode_frame-encode k j f =
    let (out, m, e) =
      j.marshalled (nullable f.join_ref) (nullable f.ref) f.topic f.event
        (or_empty_object f.payload) in
    let g = record f { payload = or_empty_object f.payload } in
    (
      out,
      m,
      decode_frame-of k out _ e
          ∙ decode_elements-quoted k j g (nullable f.join_ref) (nullable f.ref)
              (or_blank-nullable f.join_ref) (or_blank-nullable f.ref),
    )

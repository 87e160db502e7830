-- ===== src/Protocol/Base64/Tests.antt =====
-- The vectors of RFC 4648 that the tests of protocol/src/base64.rs use.
use project_apex.Prelude.{◌≡◌, refl, [], ◌∷◌, arith, codes}
use project_apex.Protocol.Base64.{
  encode, decode, ok, letter, encode_chunk, encode_chunks, chunks3, chunks4, decode_chunks, scan,
  sextet, emit, alphabet,
}
use project_apex.Protocol.Base64.RoundTrip.{decode-encode_bytes}

foobar : encode (codes "foobar") ≡ codes "Zm9vYmFy"
unfolding encode encode_chunks encode_chunk chunks3 letter
foobar = refl

decode_f : decode (codes "Zg==") ≡ ok (codes "f")
unfolding decode decode_chunks chunks4 scan sextet alphabet emit
decode_f = refl

decode-encode_bytes_example : decode (encode (0 ∷ 255 ∷ 16 ∷ 7 ∷ [])) ≡ ok (0 ∷ 255 ∷ 16 ∷ 7 ∷ [])
decode-encode_bytes_example =
    decode-encode_bytes (0 ∷ 255 ∷ 16 ∷ 7 ∷ [])
      (omega arith, (omega arith, (omega arith, (omega arith, tt))))

padded_twice : decode (codes "Zg==Zg==") ≡ ok (codes "ff")
unfolding decode decode_chunks chunks4 scan sextet alphabet emit
padded_twice = refl

-- ===== src/L402/Caveat/Codec.antt =====
-- Caveats as text and back.
use aperture.Prelude.{
  ◌≡◌, refl, ◌↔◌, List, [], ◌∷◌, ◌++◌, Bytes, Lacks, ok, err, err_invalid_caveat, arith,
}
use aperture.Go.Strings.{split_n2, split_n2-append, split_n2-Cut, Cut, found, missing}
use aperture.L402.Caveat.{Caveat, encode_caveat, caveat_of_parts, decode_caveat}

-- Decoding an encoded caveat gives the caveat back, whatever its value, if its condition holds no
-- equals sign.
pub decode-encode : (c : Caveat) → Lacks b'=' c.condition → decode_caveat (encode_caveat c) ≡ ok c
unfolding decode_caveat encode_caveat
decode-encode c h = rw (split_n2-append b'=' c.condition c.value h)

-- The condition and the value that a text is decoded to.
pub record Decodes (s : Bytes) (c : Caveat) : Type 0 where
  pub text : s ≡ encode_caveat c
  pub plain : Lacks b'=' c.condition

Decodes-parts :
    (s : Bytes) (c : Caveat) (parts : List Bytes)
    → Cut b'=' s parts
    → caveat_of_parts parts ≡ ok c
    → Decodes s c
unfolding encode_caveat
Decodes-parts s c parts (found p q l e k) h = ground arith
Decodes-parts s c parts (missing l k) h = absurd (ground arith)

-- A text decodes to a caveat exactly when it is that caveat's encoding and the condition holds no
-- equals sign.
pub decode_iff : (s : Bytes) (c : Caveat) → (decode_caveat s ≡ ok c) ↔ Decodes s c
unfolding decode_caveat
decode_iff s c = (
  Decodes-parts s c (split_n2 b'=' s) (split_n2-Cut b'=' s),
  λ d. rw (d.text) (decode-encode c d.plain),
)

parts-eq-err_iff :
    (s : Bytes) (parts : List Bytes)
    → Cut b'=' s parts
    → (caveat_of_parts parts ≡ err err_invalid_caveat) ↔ Lacks b'=' s
parts-eq-err_iff s parts (found p q l e k) =
    (λ h. absurd (ground arith), λ h. absurd (not-Lacks-append p q (rw e at h)))
  where
    not-Lacks-append : (p q : Bytes) → ¬ Lacks b'=' (p ++ b'=' ∷ q)
    not-Lacks-append [] q h = h.0 refl
    not-Lacks-append (x ∷ p) q h = not-Lacks-append p q h.1
parts-eq-err_iff s parts (missing l k) = (λ h. l, λ h. ground arith)

-- Decoding fails with ErrInvalidCaveat exactly on a text without an equals sign.
pub decode-eq-err_iff : (s : Bytes) → (decode_caveat s ≡ err err_invalid_caveat) ↔ Lacks b'=' s
unfolding decode_caveat
decode-eq-err_iff s = parts-eq-err_iff s (split_n2 b'=' s) (split_n2-Cut b'=' s)

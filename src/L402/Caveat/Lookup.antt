-- ===== src/L402/Caveat/Lookup.antt =====
-- HasCaveat against the caveats that are added to a macaroon.
use aperture.Prelude.{
  ◌≡◌, Option, none, some, List, [], ◌∷◌, ◌++◌, if◌then◌else◌, Bytes, bytes_eq, Lacks, ok, arith,
}
use aperture.L402.Macaroon.{MacaroonLib, IsMacaroonLib}
use aperture.L402.Caveat.{Caveat, encode_caveat, note_caveat, find_caveat, has_caveat}
use aperture.L402.Caveat.Codec.{decode-encode}

find_caveat-append :
    (cond : Bytes) (found : Option Bytes) (raws : List Bytes) (c : Caveat)
    → Lacks b'=' c.condition
    → find_caveat cond found (raws ++ encode_caveat c ∷ [])
      ≡ (if bytes_eq c.condition cond then some c.value else find_caveat cond found raws)
unfolding find_caveat
find_caveat-append cond found [] c h = ground (arith, decode-encode c h)
find_caveat-append cond found (raw ∷ raws) c h =
    find_caveat-append cond (note_caveat cond found raw) raws c h

module _ (lib : MacaroonLib) (laws : IsMacaroonLib lib) where
  -- After a caveat is added whose condition holds no equals sign, a lookup of its condition gives
  -- its value, whatever the caveats before it say, and a lookup of any other condition is unchanged.
  pub has_caveat-add :
      (m n : lib.Macaroon) (c : Caveat) (cond : Bytes)
      → Lacks b'=' c.condition
      → lib.add_first_party_caveat m (encode_caveat c) ≡ ok n
      → has_caveat lib n cond
        ≡ (if bytes_eq c.condition cond then some c.value else has_caveat lib m cond)
  unfolding has_caveat
  has_caveat-add m n c cond h e =
      rw (laws.caveats-add m n (encode_caveat c) e)
        (find_caveat-append cond none (lib.caveats m) c h)

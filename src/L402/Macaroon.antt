-- ===== src/L402/Macaroon.antt =====
-- The macaroon library (gopkg.in/macaroon.v2), which the repository calls and does not contain:
-- its operations are a parameter, and the laws below are its documented behaviour.
use aperture.Prelude.{◌≡◌, List, [], ◌∷◌, ◌++◌, Bytes, Result, ok, ◌≢◌}
use aperture.Go.Hex.{AreBytes}

pub record MacaroonLib : Type 1 where
  pub Macaroon : Type 0
  -- macaroon.New(rootKey, id, location, LatestVersion)
  pub make : Bytes → Bytes → Bytes → Result Macaroon
  -- m.Id(), and the ids of m.Caveats() in order
  pub id : Macaroon → Bytes
  pub caveats : Macaroon → List Bytes
  -- m.AddFirstPartyCaveat(condition)
  pub add_first_party_caveat : Macaroon → Bytes → Result Macaroon
  -- m.VerifySignature(rootKey, nil): the conditions of the first-party caveats
  pub verify_signature : Macaroon → Bytes → Result (List Bytes)
  -- m.MarshalBinary() and UnmarshalBinary(data)
  pub marshal_binary : Macaroon → Result Bytes
  pub unmarshal_binary : Bytes → Result Macaroon

pub record IsMacaroonLib (lib : MacaroonLib) : Type 0 where
  pub id-make : (key id loc : Bytes) (m : lib.Macaroon) → lib.make key id loc ≡ ok m → lib.id m ≡ id
  pub caveats-make :
      (key id loc : Bytes) (m : lib.Macaroon) → lib.make key id loc ≡ ok m → lib.caveats m ≡ []
  pub id-add :
      (m n : lib.Macaroon) (c : Bytes) → lib.add_first_party_caveat m c ≡ ok n → lib.id n ≡ lib.id m
  pub caveats-add :
      (m n : lib.Macaroon) (c : Bytes)
      → lib.add_first_party_caveat m c ≡ ok n
      → lib.caveats n ≡ lib.caveats m ++ c ∷ []
  -- A macaroon verifies under the key that it was made with, and gives its conditions.
  pub verify-make :
      (key id loc : Bytes) (m : lib.Macaroon)
      → lib.make key id loc ≡ ok m
      → lib.verify_signature m key ≡ ok []
  pub verify-add :
      (m n : lib.Macaroon) (c key : Bytes) (cs : List Bytes)
      → lib.add_first_party_caveat m c ≡ ok n
      → lib.verify_signature m key ≡ ok cs
      → lib.verify_signature n key ≡ ok (cs ++ c ∷ [])
  -- With no discharges, what verifies is the list of all caveats.
  pub verify-caveats :
      (m : lib.Macaroon) (key : Bytes) (cs : List Bytes)
      → lib.verify_signature m key ≡ ok cs
      → cs ≡ lib.caveats m
  pub unmarshal-marshal :
      (m : lib.Macaroon) (b : Bytes) → lib.marshal_binary m ≡ ok b → lib.unmarshal_binary b ≡ ok m
  -- What is written is a text of bytes, and is not empty.
  pub marshal-AreBytes : (m : lib.Macaroon) (b : Bytes) → lib.marshal_binary m ≡ ok b → AreBytes b
  pub marshal-ne : (m : lib.Macaroon) → lib.marshal_binary m ≢ ok []

-- ===== src/Crypto/Volume/Mac.antt =====
-- The header's MAC: what is sealed verifies, and what verifies is what was sealed.
use pqfs.Common.{
  ◌≡◌, refl, sym, ap, ◌∙◌, Bytes, [], ◌∷◌, ok, err, true, arith, Bool-cases, inl, inr,
  header_modified, some, length, ◌≤◌,
}
use pqfs.Crypto.Primitives.{Primitives}
use pqfs.Crypto.Header.{VolumeHeader, zero_mac, max_header_bytes}
use pqfs.Crypto.Keys.{
  HeaderCodec, IsFaithful, same_bytes, derive_header_mac_key, authenticated_bytes, header_mac,
  verify_header_mac,
}
use pqfs.Crypto.Volume.Store.{seal_header}

pub same_bytes_refl : (x : Bytes) → same_bytes x x ≡ true
unfolding same_bytes
same_bytes_refl [] = refl
same_bytes_refl (a ∷ x) = ground (arith, same_bytes_refl x)

pub same_bytes-eq : (x y : Bytes) → same_bytes x y ≡ true → x ≡ y
unfolding same_bytes
same_bytes-eq [] [] h = refl
same_bytes-eq [] (b ∷ y) h = absurd (ground arith)
same_bytes-eq (a ∷ x) [] h = absurd (ground arith)
same_bytes-eq (a ∷ x) (b ∷ y) h = ground (arith, same_bytes-eq x y)

module _ (p : Primitives) (codec : HeaderCodec) where
  -- What `seal_header` gives: the header with a MAC under the derived key.
  pub seal_header_lem :
      (header : VolumeHeader) (master_key mac_key : Bytes)
      → derive_header_mac_key p master_key ≡ ok mac_key
      → seal_header p codec header master_key
        ≡ ok (record header { mac = header_mac p codec mac_key (record header { mac = zero_mac }) })
  unfolding seal_header
  seal_header_lem header master_key mac_key h = rw h

  -- A header that was sealed verifies under the MAC key that its master key derives, whatever MAC it had
  -- before.
  pub verify-seal :
      (header sealed : VolumeHeader) (master_key mac_key : Bytes)
      → derive_header_mac_key p master_key ≡ ok mac_key
      → seal_header p codec header master_key ≡ ok sealed
      → verify_header_mac p codec mac_key sealed ≡ ok tt
  unfolding verify_header_mac header_mac
  verify-seal header sealed master_key mac_key hk hs =
      let unsigned : VolumeHeader = record header { mac = zero_mac } in
      let tag = header_mac p codec mac_key unsigned in
      let e : sealed ≡ record header { mac = tag } =
        ok-injective (sym hs ∙ seal_header_lem header master_key mac_key hk) in
      rw e (rw (same_bytes_refl tag))
    where
      ok-injective : {a b : VolumeHeader} → ok a ≡ ok b → a ≡ b
      ok-injective h = cc

  mac_of_verified :
      (mac_key : Bytes) (header : VolumeHeader)
      → verify_header_mac p codec mac_key header ≡ ok tt
      → p.hmac mac_key (authenticated_bytes p codec header) ≡ header.mac
  unfolding verify_header_mac
  mac_of_verified mac_key header v = elim (Bool-cases (same_bytes tag header.mac)) [
    | inl same ↦ same_bytes-eq tag header.mac same
    | inr other ↦
        let refused : verify_header_mac p codec mac_key header ≡ err header_modified = rw other in
        absurd (cc (v, refused))
  ]
    where
      tag : Bytes
      tag = p.hmac mac_key (authenticated_bytes p codec header)

  -- Two headers that carry one MAC and verify under one key are equal, so no slot was added, removed,
  -- reordered or changed, if the codec is faithful, HMAC does not collide on the two, and what is
  -- authenticated of both is within the size limit.
  pub verify_unique :
      (mac_key : Bytes) (header header' : VolumeHeader)
      → IsFaithful codec
      → (p.hmac mac_key (authenticated_bytes p codec header)
            ≡ p.hmac mac_key (authenticated_bytes p codec header')
          → authenticated_bytes p codec header ≡ authenticated_bytes p codec header')
      → length (authenticated_bytes p codec header) ≤ max_header_bytes
      → length (authenticated_bytes p codec header') ≤ max_header_bytes
      → header.mac ≡ header'.mac
      → verify_header_mac p codec mac_key header ≡ ok tt
      → verify_header_mac p codec mac_key header' ≡ ok tt
      → header ≡ header'
  unfolding authenticated_bytes
  verify_unique mac_key header header' faithful no_collision small small' same v v' =
      let e : p.hmac mac_key (authenticated_bytes p codec header)
          ≡ p.hmac mac_key (authenticated_bytes p codec header') =
        mac_of_verified mac_key header v ∙ same ∙ sym (mac_of_verified mac_key header' v') in
      let s : some (record header { mac = zero_mac }) ≡ some (record header' { mac = zero_mac }) =
        sym (faithful.deserialize-serialize (record header { mac = zero_mac }) small)
        ∙ ap codec.deserialize (no_collision e)
        ∙ faithful.deserialize-serialize (record header' { mac = zero_mac }) small' in
      ground (arith, s, same)

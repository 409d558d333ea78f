-- ===== src/Crypto/Volume/Opening.antt =====
-- A key slot of src/crypto/volume.rs opens: the credential that it was made for unwraps the master key.
use pqfs.Common.{
  ℕ, true, ◌+◌, ◌≡◌, ap, ◌∙◌, Bytes, length, Result, ok, some, arith, le→ltb, ◌==◌, Option-cases,
  inl, inr,
}
use pqfs.Common.After.{ok-injective}
use pqfs.Common.Exec.{and_then-eq-ok}
use pqfs.Crypto.Primitives.{Primitives, IsSound, IsKem}
use pqfs.Crypto.Header.{KeySlot, KdfParams, VolumeHeader, salt_len, seed_len}
use pqfs.Crypto.Keys.{derive_password_key, derive_recipient_kek, wrap_master_key, unwrap_master_key}
use pqfs.Crypto.Aead.{build_cipher}
use pqfs.Crypto.Aead.RoundTrip.{open_blob-seal_blob}
use pqfs.Crypto.Identity.{
  Identity, PublicIdentity, public, recover_kek, encapsulate, decapsulation_key, selected_kem_param,
}
use pqfs.Crypto.Volume.Slots.{Unlock, try_slot, recipient_slot, password_slot}

module _ (p : Primitives) (sound : IsSound p) where
  -- With a sound cipher, a master key of 32 bytes that was wrapped is unwrapped by the same key and volume id.
  pub unwrap_master_key-wrap :
      (kek volume_id master_key wrapped : Bytes) (draws draws' : ℕ)
      → length master_key ≡ 32
      → wrap_master_key p kek volume_id master_key draws ≡ (ok wrapped, draws')
      → unwrap_master_key p kek volume_id wrapped ≡ ok master_key
  unfolding wrap_master_key unwrap_master_key
  unwrap_master_key-wrap kek volume_id master_key wrapped draws draws' size h =
      let (cipher, s, built, sealed) =
        and_then-eq-ok (build_cipher kek, draws) _ wrapped draws' h in
      let (opens, long) =
        open_blob-seal_blob p sound cipher volume_id master_key wrapped s draws' sealed in
      let built' : build_cipher kek ≡ ok cipher = ap (λ (r : Result Bytes × ℕ). r.0) built in
      rw (le→ltb (length wrapped) 40 (omega (arith, size, long)))
        (rw (built', opens) (ground (arith, size)))

  -- With a sound cipher, a password slot that was made opens, in any header of the volume, for the password.
  pub try_slot-password_slot :
      (word master_key : Bytes) (kdf : KdfParams) (header : VolumeHeader) (slot : KeySlot)
      (draws draws' : ℕ)
      → length master_key ≡ 32
      → password_slot p word header.volume_id master_key kdf draws ≡ (ok slot, draws')
      → try_slot p header slot (Unlock.password word) ≡ ok (some master_key)
  unfolding password_slot try_slot
  try_slot-password_slot word master_key kdf header slot draws draws' size h =
      let salt = p.fill_bytes draws salt_len in
      let (kek, s, derived, rest) =
        and_then-eq-ok (derive_password_key p word salt kdf, draws + 1) _ slot draws' h in
      let (wrapped, t, wraps, made) =
        and_then-eq-ok (wrap_master_key p kek header.volume_id master_key s) _ slot draws' rest in
      let slot' : KeySlot.password salt kdf wrapped ≡ slot =
        ok-injective (ap (λ (r : Result KeySlot × ℕ). r.0) made) in
      let derived' : derive_password_key p word salt kdf ≡ ok kek =
        ap (λ (r : Result Bytes × ℕ). r.0) derived in
      rw (← slot') (
        ground (
          arith,
          derived',
          unwrap_master_key-wrap kek header.volume_id master_key wrapped s t size wraps,
        ))

  module _ (kem : IsKem p) where
    -- What is encapsulated to an identity's public half, its owner recovers.
    recover_kek-encapsulate :
        (identity : Identity) (recipient : PublicIdentity) (ct kek : Bytes) (draws draws' : ℕ)
        → public p identity ≡ ok recipient
        → encapsulate p recipient draws ≡ (ok (ct, kek), draws')
        → recover_kek p identity ct ≡ ok kek
    unfolding public encapsulate recover_kek decapsulation_key
    recover_kek-encapsulate identity recipient ct kek draws draws' own h =
        let full : (length identity.seed == seed_len) ≡ true = ground (arith, own) in
        let key : p.kem_public_key identity.seed ≡ recipient.kem_public_key =
          ground (arith, own, full) in
        let param : (recipient.kem_param == selected_kem_param) ≡ true =
          ground (arith, own, full) in
        let long : (length recipient.kem_public_key == p.kem_public_key_len) ≡ true =
          ground (arith, h, param) in
        elim (Option-cases (p.kem_encapsulate recipient.kem_public_key draws)) [
          | inl none_made ↦ absurd (ground (arith, h, param, long, none_made))
          | inr ((ct', secret), made) ↦
              let derived : derive_recipient_kek p secret ≡ ok kek =
                ground (arith, h, param, long, made) in
              let ct'' : ct' ≡ ct = ground (arith, h, param, long, made) in
              let made' : p.kem_encapsulate (p.kem_public_key identity.seed) draws
                  ≡ some (ct', secret) =
                ap (λ k. p.kem_encapsulate k draws) key ∙ made in
              let size = kem.length-kem_encapsulate _ ct' secret draws made' in
              let shared : p.kem_decapsulate identity.seed ct' ≡ secret =
                kem.kem_decapsulate-encapsulate identity.seed ct' secret draws
                  (ground (arith, full)) made' in
              rw (← ct'') (ground (arith, full, size, shared, derived))
        ]

    -- With a sound cipher and key encapsulation, a recipient slot that was made for the public half of an
    -- identity opens, in any header of the volume, for the identity.
    pub try_slot-recipient_slot :
        (identity : Identity) (recipient : PublicIdentity) (name master_key : Bytes)
        (header : VolumeHeader) (slot : KeySlot) (draws draws' : ℕ)
        → length master_key ≡ 32
        → public p identity ≡ ok recipient
        → recipient_slot p recipient name header.volume_id master_key draws ≡ (ok slot, draws')
        → try_slot p header slot (Unlock.identity identity) ≡ ok (some master_key)
    unfolding recipient_slot try_slot
    try_slot-recipient_slot identity recipient name master_key header slot draws draws' size own h =
        let ((ct, kek), s, shared, rest) =
          and_then-eq-ok (encapsulate p recipient draws) _ slot draws' h in
        let (wrapped, t, wraps, made) =
          and_then-eq-ok (wrap_master_key p kek header.volume_id master_key s) _ slot draws' rest in
        let slot' : KeySlot.recipient name recipient.kem_param recipient.kem_public_key ct wrapped
            ≡ slot =
          ok-injective (ap (λ (r : Result KeySlot × ℕ). r.0) made) in
        rw (← slot') (
          ground (
            arith,
            recover_kek-encapsulate identity recipient ct kek draws s own shared,
            unwrap_master_key-wrap kek header.volume_id master_key wrapped s t size wraps,
          ))

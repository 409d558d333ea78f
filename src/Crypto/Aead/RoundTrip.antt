-- ===== src/Crypto/Aead/RoundTrip.antt =====
-- What is sealed is opened again, blobs have a fixed overhead, and sealing does not fail.
use pqfs.Common.{
  Option-cases, inl, inr, subst, ℕ, ◌+◌, ◌^◌, ◌≤◌, ◌≡◌, refl, ap, Bytes, length, take, drop, List,
  [], ◌∷◌, ◌++◌, suc, zero, arith, length-append, ok, le→ltb,
}
use pqfs.Crypto.Primitives.{Primitives, IsSound}
use pqfs.Crypto.Aead.{le_bytes, seal_blob, open_blob, encrypt_block, decrypt_block}

pub take-append {ℓ} : {A : Type ℓ} (xs ys : List A) (n : ℕ) → length xs ≡ n → take n (xs ++ ys) ≡ xs
take-append [] ys zero h = refl
take-append [] ys (suc n) h = absurd (omega arith)
take-append (x ∷ xs) ys zero h = absurd (omega arith)
take-append (x ∷ xs) ys (suc n) h = ap (λ t. x ∷ t) (take-append xs ys n (omega arith))

pub drop-append {ℓ} : {A : Type ℓ} (xs ys : List A) (n : ℕ) → length xs ≡ n → drop n (xs ++ ys) ≡ ys
drop-append [] ys zero h = refl
drop-append [] ys (suc n) h = absurd (omega arith)
drop-append (x ∷ xs) ys zero h = absurd (omega arith)
drop-append (x ∷ xs) ys (suc n) h = drop-append xs ys n (omega arith)

module _ (p : Primitives) (sound : IsSound p) where
  -- A blob that was sealed: its length, and that it opens to the message.
  pub record Sealed (key aad msg : Bytes) (draws : ℕ) : Type 0 where
    pub blob : Bytes
    pub sealed : seal_blob p key aad msg draws ≡ (ok blob, draws + 1)
    pub size : length blob ≡ length msg + 40
    pub opens : open_blob p key aad blob ≡ ok msg

  pub seal_blob_total :
      (key aad msg : Bytes) (draws : ℕ)
      → length key ≡ 32
      → length msg ≤ 2 ^ 37
      → Sealed key aad msg draws
  unfolding seal_blob open_blob
  seal_blob_total key aad msg draws hk hm =
      let nonce = p.fill_bytes draws 24 in
      let hn : length nonce ≡ 24 = sound.length-fill_bytes draws 24 in
      let (c, hc) = sound.seal_total key nonce aad msg hk hn hm in
      let hl : length c ≡ length msg + 16 = sound.length-seal key nonce aad msg c hc in
      let size : length (nonce ++ c) ≡ length msg + 40 = omega (arith, length-append nonce c) in
      record {
        blob = nonce ++ c;
        sealed = rw hc;
        size = size;
        opens = rw (
          le→ltb (length (nonce ++ c)) 40 (omega arith),
          take-append nonce c 24 hn,
          drop-append nonce c 24 hn,
          sound.unseal-seal key nonce aad msg c hc,
        );
      }

  -- What was sealed, under a key of any length that the cipher takes, opens to the message.
  pub open_blob-seal_blob :
      (key aad msg blob : Bytes) (draws draws' : ℕ)
      → seal_blob p key aad msg draws ≡ (ok blob, draws')
      → (open_blob p key aad blob ≡ ok msg) × (length blob ≡ length msg + 40)
  unfolding seal_blob
  open_blob-seal_blob key aad msg blob draws draws' h =
      let nonce = p.fill_bytes draws 24 in
      let hn : length nonce ≡ 24 = sound.length-fill_bytes draws 24 in
      elim (Option-cases (p.seal key nonce aad msg)) [
        | inl failed ↦ absurd (ground (arith, h, failed))
        | inr (c, hc) ↦
            let b : nonce ++ c ≡ blob = ground (arith, h, hc) in
            let hl : length c ≡ length msg + 16 = sound.length-seal key nonce aad msg c hc in
            let size : length (nonce ++ c) ≡ length msg + 40 =
              omega (arith, length-append nonce c) in
            let opens : open_blob p key aad (nonce ++ c) ≡ ok msg =
              unfold open_blob in
              rw (
                le→ltb (length (nonce ++ c)) 40 (omega arith),
                take-append nonce c 24 hn,
                drop-append nonce c 24 hn,
                sound.unseal-seal key nonce aad msg c hc,
              ) in
            subst (λ x. (open_blob p key aad x ≡ ok msg) × (length x ≡ length msg + 40)) b
              (opens, size)
      ]

  -- The same for a block of a file: it opens under the key and the index that it was sealed for.
  pub record SealedBlock (key : Bytes) (index : ℕ) (plaintext : Bytes) (draws : ℕ) : Type 0 where
    pub blob : Bytes
    pub sealed : encrypt_block p key index plaintext draws ≡ (ok blob, draws + 1)
    pub size : length blob ≡ length plaintext + 40
    pub opens : decrypt_block p key index blob ≡ ok plaintext

  pub encrypt_block_total :
      (key : Bytes) (index : ℕ) (plaintext : Bytes) (draws : ℕ)
      → length key ≡ 32
      → length plaintext ≤ 2 ^ 37
      → SealedBlock key index plaintext draws
  unfolding encrypt_block decrypt_block
  encrypt_block_total key index plaintext draws hk hm =
      let s = seal_blob_total key (le_bytes 8 index) plaintext draws hk hm in
      record {
        blob = s.blob;
        sealed = rw hk s.sealed;
        size = s.size;
        opens = rw (hk, le→ltb (length s.blob) 40 (omega (arith, s.size))) s.opens;
      }

  -- Under a key of 32 bytes and a sound cipher, a block of at most 2 ^ 37 bytes is sealed into 40 bytes
  -- more, with one draw, and opens to its plaintext under the same key and index.
  pub decrypt_block-encrypt_block :
      (key : Bytes) (index : ℕ) (plaintext : Bytes) (draws : ℕ)
      → length key ≡ 32
      → length plaintext ≤ 2 ^ 37
      → (blob : Bytes) × (encrypt_block p key index plaintext draws ≡ (ok blob, draws + 1))
        × (length blob ≡ length plaintext + 40)
        × (decrypt_block p key index blob ≡ ok plaintext)
  decrypt_block-encrypt_block key index plaintext draws hk hm =
      let s = encrypt_block_total key index plaintext draws hk hm in
      (s.blob, s.sealed, s.size, s.opens)

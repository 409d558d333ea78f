-- ===== src/Tests/Toy.antt =====
-- Primitives that meet `IsSound`: the tag is 16 zeros, keys are constant, and a MAC is its message.
use pqfs.Common.{
  ℕ, ◌-◌, ◌%◌, ◌≡◌, refl, Bytes, length, take, replicate, ◌++◌, some, arith, length-append,
  length-replicate,
}
use pqfs.Crypto.Primitives.{Primitives, IsSound}
use pqfs.Crypto.Aead.RoundTrip.{take-append}

abbrev pub tag : Bytes
tag = replicate 16 0

abbrev pub toy : Primitives
toy = record {
  seal = λ k n a m. some (m ++ tag);
  unseal = λ k n a c. some (take (length c - 16) c);
  fill_bytes = λ i n. replicate n (i % 256);
  argon2 = λ m t c word salt. some (replicate 32 5);
  hkdf = λ ikm info. some (replicate 32 7);
  hmac = λ k m. m;
  kem_public_key_len = 2;
  kem_ciphertext_len = 3;
  kem_generate = λ i. replicate 64 (i % 256);
  kem_public_key = λ seed. take 2 seed;
  kem_encapsulate = λ key i. some (replicate 3 9, replicate 32 4);
  kem_decapsulate = λ seed ct. replicate 32 4;
}

some-injective : {a b : Bytes} → some a ≡ some b → a ≡ b
some-injective h = cc

unseal_toy : (m c : Bytes) → m ++ tag ≡ c → some (take (length c - 16) c) ≡ some m
unseal_toy m c h = rw (← h) (
    rw (
      take-append m tag (length (m ++ tag) - 16)
        (omega (arith, length-append m tag, length-replicate {A = ℕ} 16 0))))

pub toy-IsSound : IsSound toy
toy-IsSound = record {
  unseal-seal = λ k n a m c h. unseal_toy m c (some-injective h);
  length-seal = λ k n a m c h.
      rw (← some-injective h) (omega (arith, length-append m tag, length-replicate {A = ℕ} 16 0));
  seal_total = λ k n a m hk hn hm. (m ++ tag, refl);
  length-fill_bytes = λ i n. length-replicate {A = ℕ} n (i % 256);
}

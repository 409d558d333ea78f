-- ===== src/Commands/Issue.antt =====
-- What `keygen` of src/commands.rs issues: an identity file and a public file that belong together.
use pqfs.Common.{
  ℕ, ◌+◌, ◌≡◌, refl, ap, sym, ◌∙◌, Bytes, length, length-append, false, Option, none, some, Result,
  ok, arith, Bool-cases, inl, inr, if◌then◌else◌,
}
use pqfs.Crypto.Primitives.{Primitives, IsSound, IsKem}
use pqfs.Crypto.Header.{VolumeHeader, KeySlot, seed_len}
use pqfs.Crypto.Keys.{ascii, same_bytes}
use pqfs.Crypto.Identity.{
  Identity, PublicIdentity, load, generate, public, decapsulation_key, selected_kem_param,
}
use pqfs.Crypto.Volume.Mac.{same_bytes_refl, same_bytes-eq}
use pqfs.Crypto.Volume.Slots.{Unlock, try_slot, recipient_slot}
use pqfs.Crypto.Volume.Opening.{try_slot-recipient_slot}
use pqfs.Commands.Credentials.{World, identity_file, is_some}
use pqfs.Commands.Keygen.{
  PublicCodec, IsFaithful, System, Answer, with_file, write_file, write_private, save_identity,
  save_public, public_path, keygen,
}
use pqfs.Commands.Slots.{load_public}

-- The identity file loads, the public file loads as the identity's public half, and every other file outside
-- of the backend is as it was.
pub record IsIssued (p : Primitives) (codec : PublicCodec) (out : Bytes) (w w' : World)
    : Type 0 where
  pub identity : Identity
  pub recipient : PublicIdentity
  pub private :
      (word : Option Bytes)
      → identity_file (record { password = word; identity = some out }) w'
        ≡ (ok (some identity), w')
  pub shared : load_public codec.deserialize (public_path out) w' ≡ (ok recipient, w')
  pub own : public p identity ≡ ok recipient
  pub files :
      (q : Bytes)
      → w'.outside q ≡ (
          if same_bytes q (public_path out)
          then some (codec.serialize recipient)
          else if same_bytes q out
          then some identity.seed
          else w.outside q)
  pub backend : (w'.backend).files ≡ (w.backend).files

module _ (out : Bytes) (content : Bytes) (w : World) where
  own_file : (with_file out content w).outside out ≡ some content
  unfolding with_file
  own_file = rw (same_bytes_refl out) refl

  other_file :
      (q : Bytes) → same_bytes q out ≡ false → (with_file out content w).outside q ≡ w.outside q
  unfolding with_file
  other_file q apart = rw apart refl

write_file-written :
    (system : System) (path content : Bytes) (w : World)
    → system path content ≡ Answer.written
    → write_file system path content w ≡ (ok tt, with_file path content w)
unfolding write_file
write_file-written system path content w goes = rw (goes, write_file) refl

abbrev generated : Bytes → Identity
generated seed = record { seed = seed }

abbrev public_half : Primitives → Bytes → PublicIdentity
public_half p seed = record {
  kem_param = selected_kem_param;
  kem_public_key = p.kem_public_key seed;
}

public-generated :
    (p : Primitives) (seed : Bytes)
    → length seed ≡ seed_len
    → public p (generated seed) ≡ ok (public_half p seed)
unfolding public decapsulation_key
public-generated p seed size = ground (arith, size)

load-generated : (seed : Bytes) → length seed ≡ seed_len → load seed ≡ ok (generated seed)
unfolding load
load-generated seed size = ground (arith, size)

-- The two paths differ.
public_path-apart : (out : Bytes) → same_bytes out (public_path out) ≡ false
unfolding public_path
public_path-apart out = elim (Bool-cases (same_bytes out (public_path out))) [
  | inr apart ↦ apart
  | inl same ↦
      let e = ap length (same_bytes-eq out (public_path out) same) in
      absurd (omega (arith, e, length-append out (ascii ".pub")))
]

module _ (p : Primitives) (sound : IsSound p) (kem : IsKem p) (codec : PublicCodec)
    (faithful : IsFaithful codec) (system : System) where
  -- With a sound cipher and key encapsulation and a codec that reads back what it writes, where nothing has
  -- the path and the system lets files be written: `keygen` succeeds, the identity file that it leaves
  -- loads, the public file next to it loads as that identity's public half, and every other file is as it
  -- was.
  pub keygen-IsIssued :
      (out : Bytes) (w : World)
      → w.outside out ≡ none
      → ((path content : Bytes) → system path content ≡ Answer.written)
      → (w' : World) × (keygen p system codec out w ≡ (ok (public_path out), w'))
        × IsIssued p codec out w w'
  unfolding keygen generate write_private save_identity save_public is_some
  keygen-IsIssued out w missing writes =
      let draws = (w.backend).draws in
      let seed = p.kem_generate draws in
      let size = kem.length-kem_generate draws in
      let recipient = public_half p seed in
      let w₁ : World = record w { backend = record (w.backend) { draws = draws + 1 } } in
      let w₂ = with_file out seed w₁ in
      let w₃ = with_file (public_path out) (codec.serialize recipient) w₂ in
      let own' : public p (generated seed) ≡ ok recipient = public-generated p seed size in
      let first = write_file-written system out seed w₁ (writes out seed) in
      let second =
        write_file-written system (public_path out) (codec.serialize recipient) w₂
          (writes (public_path out) (codec.serialize recipient)) in
      (
        w₃,
        ground (arith, missing, first, own', second),
        record {
          identity = generated seed;
          recipient = recipient;
          private = λ word.
              unfold identity_file in
              ground (
                arith,
                other_file (public_path out) (codec.serialize recipient) w₂ out
                    (public_path-apart out),
                own_file out seed w₁,
                load-generated seed size,
              );
          shared =
              unfold load_public in
              ground (
                arith,
                own_file (public_path out) (codec.serialize recipient) w₂,
                faithful.deserialize-serialize recipient,
              );
          own = own';
          files = λ q. unfold with_file in refl;
          backend = unfold with_file in refl;
        },
      )

  -- With a sound cipher and key encapsulation and a codec that reads back what it writes, once `keygen` has
  -- run with nothing in its way: whoever makes a slot for the recipient in the public file, under a master
  -- key of 32 bytes, makes one that opens, in any header of the volume, for the identity in the identity
  -- file.
  pub recipient_slot-keygen :
      (out path word name master_key : Bytes) (w w' : World) (recipient : PublicIdentity)
      (identity : Identity) (header : VolumeHeader) (slot : KeySlot) (draws draws' : ℕ)
      → w.outside out ≡ none
      → ((path content : Bytes) → system path content ≡ Answer.written)
      → keygen p system codec out w ≡ (ok path, w')
      → load_public codec.deserialize path w' ≡ (ok recipient, w')
      → identity_file (record { password = some word; identity = some out }) w'
        ≡ (ok (some identity), w')
      → length master_key ≡ 32
      → recipient_slot p recipient name header.volume_id master_key draws ≡ (ok slot, draws')
      → try_slot p header slot (Unlock.identity identity) ≡ ok (some master_key)
  recipient_slot-keygen out path word name master_key w w' recipient identity header slot draws
        draws' missing writes run loaded opened size made =
      let (v, run', issued) = keygen-IsIssued out w missing writes in
      let same : v ≡ w' = ap (λ (r : Result Bytes × World). r.1) (sym run' ∙ run) in
      let path' : public_path out ≡ path = ground (arith, run, run') in
      let recipient' : issued.recipient ≡ recipient =
        ground (arith, issued.shared, loaded, same, path') in
      let identity' : issued.identity ≡ identity =
        ground (arith, issued.private (some word), opened, same) in
      try_slot-recipient_slot p sound kem identity recipient name master_key header slot draws
        draws' size (ground (arith, issued.own, recipient', identity')) made

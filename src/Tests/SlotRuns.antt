-- ===== src/Tests/SlotRuns.antt =====
-- The commands for recipients at concrete inputs: an identity, its public file and a volume with two slots.
use pqfs.Common.{
  ℕ, ◌%◌, ◌≤◌, ◌≡◌, refl, sym, ap, Bytes, length, length-replicate, length-take, replicate, List,
  [], ◌∷◌, ◌++◌, get_elem?, if◌then◌else◌, none, some, ok, err, arith, no_slot_accepted,
}
use pqfs.Backend.{update}
use pqfs.Crypto.Primitives.{IsKem}
use pqfs.Crypto.Header.{KeySlot, default_kdf, max_header_bytes}
use pqfs.Crypto.Keys.{
  same_bytes, wrap_master_key, derive_recipient_kek, derive_password_key, derive_header_mac_key,
  header_mac, authenticated_bytes,
}
use pqfs.Crypto.Aead.{build_cipher, seal_blob}
use pqfs.Crypto.Identity.{
  Identity, PublicIdentity, load, generate, public, decapsulation_key, encapsulate,
}
use pqfs.Crypto.Volume.Slots.{
  Unlock, try_slot, try_slots, open_master_key, recipient_slot, password_slot,
}
use pqfs.Crypto.Volume.Store.{seal_header, unlock}
use pqfs.Crypto.Volume.Crash.{restart}
use pqfs.Crypto.Volume.Reopen.{Holds, read_header-Holds}
use pqfs.Commands.Credentials as Credentials
use pqfs.Commands.Credentials.{
  World, CredentialArgs, resolve, has_password, is_some, identity_file, require_password,
}
use pqfs.Commands.Keygen.{
  PublicCodec, IsFaithful, System, Answer, with_file, write_file, write_private, save_identity,
  save_public, public_path, keygen,
}
use pqfs.Commands.Issue.{IsIssued, keygen-IsIssued, recipient_slot-keygen}
use pqfs.Commands.Rekey.{rewrap_all, rewrap, slot_password}
use pqfs.Commands.Rewrapped.{rewrap_all-opens}
use pqfs.Commands.Slots.{load_public, open_volume, share}
use pqfs.Commands.Share.{share-unlocks}
use pqfs.Tests.Toy.{toy, toy-IsSound, tag}
use pqfs.Tests.ToyCodec.{toy_codec, toy_codec-IsFaithful, put_header, piece, put_slots, put_slot}
use pqfs.Tests.VolumeRuns.{
  master_key, mac_key, slot, with_slots, sealed_with, header, holding, word, this_of, credential,
  mac, opens, made, unmarked_header,
}

pair-injective : {a b : Bytes × Bytes} → some a ≡ some b → a ≡ b
pair-injective h = cc (h)

toy-IsKem : IsKem toy
toy-IsKem = record {
  length-kem_generate = λ i. length-replicate {A = ℕ} 64 (i % 256);
  length-kem_public_key = λ seed h. omega (arith, h, length-take 2 seed);
  length-kem_encapsulate =
      λ key ct secret i h. ap (λ (x : Bytes × Bytes). length x.0) (sym (pair-injective h));
  kem_decapsulate-encapsulate =
      λ seed ct secret i size h. ap (λ (x : Bytes × Bytes). x.1) (pair-injective h);
}

abbrev publics : PublicCodec
publics = record {
  serialize = λ k. k.kem_param ∷ k.kem_public_key;
  deserialize =
      λ b. elim b [ [] ↦ none | n ∷ key ↦ some (record { kem_param = n; kem_public_key = key }) ];
}

publics-IsFaithful : IsFaithful publics
publics-IsFaithful = record { deserialize-serialize = λ k. refl }

abbrev system : System
system = λ path content. Answer.written

abbrev out : Bytes
out = 105 ∷ []

abbrev empty : World
empty = record {
  backend = record { files = λ path. none; draws = 0; power = 9 };
  outside = λ path. none;
  answers = [];
}

keygen-IsIssued_example :
    (w' : World) × (keygen toy system publics out empty ≡ (ok (public_path out), w'))
    × IsIssued toy publics out empty w'
keygen-IsIssued_example =
    keygen-IsIssued toy toy-IsSound toy-IsKem publics publics-IsFaithful system out empty refl
      (λ path content. refl)

abbrev id : Identity
id = record { seed = replicate 64 0 }

abbrev recipient : PublicIdentity
recipient = record { kem_param = 768; kem_public_key = 0 ∷ 0 ∷ [] }

abbrev issued : World
issued = (keygen toy system publics out empty).1

ran : keygen toy system publics out empty ≡ (ok (public_path out), issued)
unfolding keygen generate public decapsulation_key write_file write_private save_identity
    save_public is_some
ran = refl

loaded : load_public publics.deserialize (public_path out) issued ≡ (ok recipient, issued)
unfolding keygen generate public decapsulation_key write_file write_private save_identity
    save_public is_some load_public with_file same_bytes public_path
loaded = refl

own_file :
    identity_file (record { password = some []; identity = some out }) issued
    ≡ (ok (some id), issued)
unfolding keygen generate public decapsulation_key write_file write_private save_identity
    save_public is_some identity_file load with_file same_bytes public_path
own_file = refl

-- A slot for the recipient, made at the first draw.
abbrev given : KeySlot
given =
    KeySlot.recipient (98 ∷ []) 768 (0 ∷ 0 ∷ []) (replicate 3 9)
      (replicate 24 1 ++ (master_key ++ tag))

gives : recipient_slot toy recipient (98 ∷ []) header.volume_id master_key 0 ≡ (ok given, 2)
unfolding recipient_slot encapsulate derive_recipient_kek wrap_master_key build_cipher seal_blob
gives = refl

recipient_slot-keygen_example :
    try_slot toy header given (Unlock.identity id) ≡ ok (some master_key)
recipient_slot-keygen_example =
    recipient_slot-keygen toy toy-IsSound toy-IsKem publics publics-IsFaithful system out
      (public_path out) [] (98 ∷ []) master_key empty issued recipient id header given 0 2 refl
      (λ path content. refl) ran loaded own_file (length-replicate {A = ℕ} 32 3) gives

id-public : public toy id ≡ ok recipient
unfolding public decapsulation_key
id-public = refl

-- The slots of a volume that is rekeyed: a recipient's, and one for a password.
abbrev rewrapped : List KeySlot
rewrapped =
    KeySlot.recipient (98 ∷ []) 768 (0 ∷ 0 ∷ []) (replicate 3 9)
      (replicate 24 1 ++ (master_key ++ tag))
    ∷ KeySlot.password (replicate 16 2) default_kdf (replicate 24 3 ++ (master_key ++ tag))
    ∷ []

rewraps :
    rewrap_all toy 0 credential header.volume_id master_key (given ∷ slot ∷ []) 0
    ≡ (ok rewrapped, 4)
unfolding rewrap_all rewrap slot_password require_password has_password recipient_slot password_slot
    encapsulate derive_recipient_kek derive_password_key wrap_master_key build_cipher seal_blob
rewraps = refl

rewrap_all-opens_example :
    (slot' : KeySlot) × (get_elem? rewrapped 0 ≡ some slot')
    × (try_slot toy header slot' (Unlock.identity id) ≡ ok (some master_key))
rewrap_all-opens_example =
    rewrap_all-opens toy toy-IsSound toy-IsKem credential header master_key
      (length-replicate {A = ℕ} 32 3) (given ∷ slot ∷ []) rewrapped 0 given (Unlock.identity id) 0 0
      4 refl id-public rewraps

-- A world with the volume and the recipient's file.
abbrev world : World
world = record {
  backend = holding header;
  outside = λ path. if same_bytes path (99 ∷ []) then some (768 ∷ 0 ∷ 0 ∷ []) else none;
  answers = [];
}

resolved : resolve credential world ≡ (ok credential, world)
unfolding resolve has_password is_some
resolved = refl

reads : load_public publics.deserialize (99 ∷ []) world ≡ (ok recipient, world)
unfolding load_public same_bytes
reads = refl

holds : Holds toy toy_codec toy_codec-IsFaithful (holding header) header
unfolding update put_header piece put_slots put_slot
holds = record { unmarked = refl; on_disk = refl; version = refl; small = omega arith }

opened : open_volume toy toy_codec credential world ≡ (ok (header, master_key), world)
unfolding open_volume identity_file Credentials.unlock require_password has_password
opened =
    rw (read_header-Holds toy toy_codec toy_codec-IsFaithful (holding header) header holds)
      (rw opens)

refused : open_master_key toy header (Unlock.identity id) ≡ err no_slot_accepted
unfolding open_master_key try_slots try_slot
refused = refl

abbrev three : List KeySlot
three = slot ∷ slot ∷ given ∷ []

seals : seal_header toy toy_codec (with_slots three) master_key ≡ ok (sealed_with three)
unfolding seal_header derive_header_mac_key header_mac authenticated_bytes
seals = refl

small : length (toy_codec.serialize (sealed_with three)) ≤ max_header_bytes
unfolding put_header piece put_slots put_slot
small = omega arith

share-unlocks_example :
    let r = share toy toy_codec publics.deserialize (99 ∷ []) (98 ∷ []) credential world in
    let left = restart r.1.backend 9 in
    (r.0 ≡ ok 2)
    × (unlock toy toy_codec (Unlock.identity id) left ≡ (ok (this_of (sealed_with three)), left))
    × (unlock toy toy_codec word left ≡ (ok (this_of (sealed_with three)), left))
share-unlocks_example =
    share-unlocks toy toy-IsSound toy-IsKem toy_codec toy_codec-IsFaithful publics.deserialize
      (99 ∷ []) (98 ∷ []) credential credential world world world recipient id word header
      (sealed_with three) master_key mac_key given 2 9 (this_of (sealed_with three)) resolved reads
      opened gives id-public refused opens (length-replicate {A = ℕ} 32 3) refl unmarked_header
      seals small mac (made (sealed_with three)) (omega arith)

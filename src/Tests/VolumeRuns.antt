-- ===== src/Tests/VolumeRuns.antt =====
-- A small volume: two password slots, an index of one byte, and crashes during its commands.
use pqfs.Common.{
  ◌≤◌, ◌≡◌, refl, Bytes, length, replicate, List, [], ◌∷◌, ◌++◌, none, some, ok, err, arith,
  incomplete_rekey, header_modified,
}
use pqfs.Backend.{Backend, update, header_file, index_file, rekey_marker}
use pqfs.Crypto.Header.{KeySlot, VolumeHeader, default_kdf, zero_mac, max_header_bytes}
use pqfs.Crypto.Keys.{
  Crypto, same_bytes, derive_password_key, unwrap_master_key, derive_filename_keys,
  derive_header_mac_key, header_mac, authenticated_bytes, verify_header_mac, from_master_key,
}
use pqfs.Crypto.Volume.Slots.{Unlock, try_slot, try_slots, open_master_key}
use pqfs.Crypto.Volume.Store.{seal_header, read_header, recover, commit_rekey, write_header, unlock}
use pqfs.Crypto.Volume.Crash.{
  restart, IsNew, IsSwapped, commit_rekey_at_marker, commit_rekey_torn, commit_rekey_whole,
}
use pqfs.Crypto.Volume.Mac.{verify-seal, verify_unique}
use pqfs.Crypto.Volume.Reopen.{Holds, read_header-Holds}
use pqfs.Crypto.Volume.Rewrite.{write_header_atomic, unlock-write_header}
use pqfs.Commands.Credentials.{
  World, CredentialArgs, resolve, has_password, is_some, identity_file, require_password,
}
use pqfs.Commands.Credentials as Credentials
use pqfs.Crypto.Aead.{build_cipher, open_blob}
use pqfs.Commands.Slots.{remove_at, open_volume, revoke}
use pqfs.Commands.Revoke.{Revokes, revoke-IsRevoked, revoke_reseals}
use pqfs.Tests.Toy.{toy, tag}
use pqfs.Tests.ToyCodec.{toy_codec, toy_codec-IsFaithful, put_header, piece, put_slots, put_slot}

abbrev pub master_key : Bytes
master_key = replicate 32 3

abbrev pub mac_key : Bytes
mac_key = replicate 32 7

abbrev pub slot : KeySlot
slot = KeySlot.password (replicate 16 1) default_kdf (replicate 24 0 ++ (master_key ++ tag))

abbrev pub with_slots : List KeySlot → VolumeHeader
with_slots slots = record { version = 3; volume_id = replicate 16 2; slots = slots; mac = zero_mac }

abbrev pub sealed_with : List KeySlot → VolumeHeader
sealed_with slots = record (with_slots slots) { mac = put_header (with_slots slots) }

abbrev pub header : VolumeHeader
header = with_slots (slot ∷ slot ∷ [])

abbrev sealed : VolumeHeader
sealed = sealed_with (slot ∷ slot ∷ [])

seals : seal_header toy toy_codec header master_key ≡ ok sealed
unfolding seal_header derive_header_mac_key header_mac authenticated_bytes
seals = refl

pub mac : derive_header_mac_key toy master_key ≡ ok mac_key
unfolding derive_header_mac_key
mac = refl

abbrev index : Bytes
index = 6 ∷ []

-- A backend with this header.
abbrev pub holding : VolumeHeader → Backend
holding h = record {
  files =
      update (update (λ f. none) index_file (some (5 ∷ []))) header_file
        (some (toy_codec.serialize h));
  draws = 0;
  power = 9;
}

unmarked : (holding sealed).files rekey_marker ≡ none
unfolding update
unmarked = refl

commit_rekey_at_marker_example :
    IsNew toy toy_codec header sealed master_key index seals (holding sealed) unmarked (
      recover (
        restart
          (commit_rekey toy toy_codec header master_key index (restart (holding sealed) 6)).1
          9))
commit_rekey_at_marker_example =
    commit_rekey_at_marker toy toy_codec header sealed master_key index seals (holding sealed)
      unmarked 6 9 (omega arith) (omega arith) (omega arith)

commit_rekey_torn_example :
    let torn =
      restart
        (commit_rekey toy toy_codec header master_key index (restart (holding sealed) 7)).1
        9 in
    read_header toy toy_codec torn ≡ (err incomplete_rekey, torn)
commit_rekey_torn_example =
    commit_rekey_torn toy toy_codec header sealed master_key index seals (holding sealed) unmarked 7
      9 (omega arith) (omega arith)

commit_rekey_whole_example :
    IsSwapped toy toy_codec header sealed master_key index seals
      (holding sealed)
      unmarked
      (commit_rekey toy toy_codec header master_key index (restart (holding sealed) 9))
commit_rekey_whole_example =
    commit_rekey_whole toy toy_codec header sealed master_key index seals (holding sealed) unmarked
      9 (omega arith)

verified : verify_header_mac toy toy_codec mac_key sealed ≡ ok tt
verified = verify-seal toy toy_codec header sealed master_key mac_key mac seals

small : length (toy_codec.serialize sealed) ≤ max_header_bytes
unfolding put_header piece put_slots put_slot
small = omega arith

small_unsigned : length (authenticated_bytes toy toy_codec sealed) ≤ max_header_bytes
unfolding authenticated_bytes put_header piece put_slots put_slot
small_unsigned = omega arith

verify_unique_example : sealed ≡ sealed
verify_unique_example =
    verify_unique toy toy_codec mac_key sealed sealed toy_codec-IsFaithful (λ h. h) small_unsigned
      small_unsigned refl verified verified

abbrev pub word : Unlock
word = Unlock.password (1 ∷ [])

pub opens : open_master_key toy header word ≡ ok master_key
unfolding open_master_key try_slots try_slot derive_password_key unwrap_master_key build_cipher
    open_blob
opens = refl

abbrev left : Backend
left = (write_header toy toy_codec header master_key (restart (holding header) 9)).1

pub unmarked_header : (holding header).files rekey_marker ≡ none
unfolding update
unmarked_header = refl

write_header_atomic_example :
    let dead = (write_header toy toy_codec header master_key (restart (holding header) 2)).1 in
    (dead.files index_file ≡ (holding header).files index_file)
    × (dead.files header_file ≡ (holding header).files header_file)
write_header_atomic_example =
    write_header_atomic toy toy_codec toy_codec-IsFaithful header sealed master_key (holding header)
      seals refl small unmarked_header 2

abbrev pub this_of : VolumeHeader → Crypto
this_of h = record {
  cipher = master_key;
  header = h;
  filename_cipher = mac_key;
  filename_hash_key = mac_key;
}

pub made : (h : VolumeHeader) → from_master_key toy master_key h ≡ ok (this_of h)
unfolding from_master_key derive_filename_keys build_cipher
made h = refl

unlock-write_header_example :
    (unlock toy toy_codec word (restart left 9) ≡ (ok (this_of sealed), restart left 9))
    × (sealed.slots ≡ header.slots)
unlock-write_header_example =
    unlock-write_header toy toy_codec toy_codec-IsFaithful header sealed master_key (holding header)
      seals refl small unmarked_header word mac_key (this_of sealed) 9 9 (omega arith) mac opens
      (made sealed)

-- A header that was tampered with: its MAC is zeros.
abbrev world : World
world = record { backend = holding header; outside = λ path. none; answers = [] }

abbrev pub credential : CredentialArgs
credential = record { password = some (1 ∷ []); identity = none }

resolved : resolve credential world ≡ (ok credential, world)
unfolding resolve has_password is_some
resolved = refl

holds : Holds toy toy_codec toy_codec-IsFaithful world.backend header
unfolding update put_header piece put_slots put_slot
holds = record { unmarked = refl; on_disk = refl; version = refl; small = omega arith }

opened : open_volume toy toy_codec credential world ≡ (ok (header, master_key), world)
unfolding open_volume identity_file Credentials.unlock require_password has_password
opened =
    rw (read_header-Holds toy toy_codec toy_codec-IsFaithful world.backend header holds) (rw opens)

abbrev one : VolumeHeader
one = with_slots (slot ∷ [])

refused : verify_header_mac toy toy_codec mac_key header ≡ err header_modified
unfolding verify_header_mac authenticated_bytes same_bytes put_header
refused = refl

opens_one : open_master_key toy one word ≡ ok master_key
unfolding open_master_key try_slots try_slot derive_password_key unwrap_master_key build_cipher
    open_blob
opens_one = refl

seals_one : seal_header toy toy_codec one master_key ≡ ok (sealed_with (slot ∷ []))
unfolding seal_header derive_header_mac_key header_mac authenticated_bytes
seals_one = refl

small_one : length (toy_codec.serialize (sealed_with (slot ∷ []))) ≤ max_header_bytes
unfolding put_header piece put_slots put_slot
small_one = omega arith

revoke_reseals_example :
    (unlock toy toy_codec word world.backend ≡ (err header_modified, world.backend))
    × let after = restart (revoke toy toy_codec 0 credential world).1.backend 9 in
      (unlock toy toy_codec word after ≡ (ok (this_of (sealed_with (slot ∷ []))), after))
unfolding remove_at
revoke_reseals_example =
    revoke_reseals toy toy_codec credential credential world world world header master_key resolved
      opened toy_codec-IsFaithful 0 (sealed_with (slot ∷ [])) word mac_key
      (this_of (sealed_with (slot ∷ []))) 9 holds mac refused opens (omega arith) (omega arith)
      opens_one seals_one small_one (made (sealed_with (slot ∷ []))) (omega arith)

revoke-IsRevoked_example :
    Revokes toy toy_codec credential credential world world world header master_key resolved opened
      0
      (sealed_with (slot ∷ []))
      9
      (revoke toy toy_codec 0 credential world)
unfolding remove_at
revoke-IsRevoked_example =
    revoke-IsRevoked toy toy_codec credential credential world world world header master_key
      resolved opened toy_codec-IsFaithful 0 (sealed_with (slot ∷ [])) 9 holds seals_one small_one
      (omega arith)

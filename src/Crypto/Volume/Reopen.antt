-- ===== src/Crypto/Volume/Reopen.antt =====
-- A header that was written is the one that the next command reads, and a credential that opened the
-- volume before still opens it.
use pqfs.Common.{
  ◌≤◌, ◌≡◌, refl, sym, subst, ◌∙◌, Bytes, length, List, [], ◌∷◌, ◌++◌, ok, some, none, arith,
  le→ltb,
}
use pqfs.Backend.{Backend, header_file, rekey_marker, read_file, exists}
use pqfs.Crypto.Primitives.{Primitives}
use pqfs.Crypto.Header.{KeySlot, VolumeHeader, header_version, max_header_bytes}
use pqfs.Crypto.Keys.{HeaderCodec, IsFaithful}
use pqfs.Crypto.Volume.Slots.{Unlock, try_slot, try_slots, open_master_key}
use pqfs.Crypto.Volume.Store.{recover, parse_header, read_header}

module _ (p : Primitives) (codec : HeaderCodec) (faithful : IsFaithful codec) where
  -- A header of this version, within the size limit, is read back from its serialization.
  pub parse_header-serialize :
      (header : VolumeHeader)
      → header.version ≡ header_version
      → length (codec.serialize header) ≤ max_header_bytes
      → parse_header p codec (codec.serialize header) ≡ ok header
  unfolding parse_header
  parse_header-serialize header v small =
      rw
        (
          le→ltb max_header_bytes (length (codec.serialize header)) small,
          faithful.deserialize-serialize header small,
        )
        (ground (arith, v))

  -- A backend that holds this header and no marker.
  pub record Holds (b : Backend) (header : VolumeHeader) : Type 0 where
    pub unmarked : b.files rekey_marker ≡ none
    pub on_disk : b.files header_file ≡ some (codec.serialize header)
    pub version : header.version ≡ header_version
    pub small : length (codec.serialize header) ≤ max_header_bytes

  pub read_header-Holds :
      (b : Backend) (header : VolumeHeader)
      → Holds b header
      → read_header p codec b ≡ (ok header, b)
  unfolding read_header recover exists read_file
  read_header-Holds b header h =
      ground (arith, h.unmarked, h.on_disk, parse_header-serialize header h.version h.small)

  try_slot_by_id :
      (header header' : VolumeHeader) (slot : KeySlot) (credential : Unlock)
      → header.volume_id ≡ header'.volume_id
      → try_slot p header slot credential ≡ try_slot p header' slot credential
  unfolding try_slot
  try_slot_by_id header header' (KeySlot.password salt kdf wrapped) (Unlock.password word) id = λ i.
      try_slot p (record header { volume_id = id i }) (KeySlot.password salt kdf wrapped)
        (Unlock.password word)
  try_slot_by_id header header' (KeySlot.recipient l q key ct wrapped) (Unlock.identity who) id =
      λ i.
        try_slot p (record header { volume_id = id i }) (KeySlot.recipient l q key ct wrapped)
          (Unlock.identity who)
  try_slot_by_id header header' (KeySlot.password salt kdf wrapped) (Unlock.identity who) id = refl
  try_slot_by_id header header' (KeySlot.recipient l q key ct wrapped) (Unlock.password word) id =
      refl

  pub try_slots_by_id :
      (header header' : VolumeHeader) (slots : List KeySlot) (credential : Unlock)
      → header.volume_id ≡ header'.volume_id
      → try_slots p header slots credential ≡ try_slots p header' slots credential
  unfolding try_slots
  try_slots_by_id header header' [] credential id = refl
  try_slots_by_id header header' (slot ∷ slots) credential id = ground (
    arith,
    try_slot_by_id header header' slot credential id,
    try_slots_by_id header header' slots credential id,
  )

  try_slots-append :
      (header : VolumeHeader) (slots more : List KeySlot) (credential : Unlock) (master_key : Bytes)
      → try_slots p header slots credential ≡ ok master_key
      → try_slots p header (slots ++ more) credential ≡ ok master_key
  unfolding try_slots
  try_slots-append header [] more credential master_key h = absurd (ground arith)
  try_slots-append header (slot ∷ slots) more credential master_key h =
      ground (arith, try_slots-append header slots more credential master_key)

  -- A credential that opens a header opens every header of the same volume whose slots are the header's
  -- with more behind, to the same master key and whatever its MAC.
  pub open_master_key-append :
      (header header' : VolumeHeader) (more : List KeySlot) (credential : Unlock)
      (master_key : Bytes)
      → header.volume_id ≡ header'.volume_id
      → header.slots ++ more ≡ header'.slots
      → open_master_key p header credential ≡ ok master_key
      → open_master_key p header' credential ≡ ok master_key
  unfolding open_master_key
  open_master_key-append header header' more credential master_key id slots h =
      subst (λ s. try_slots p header' s credential ≡ ok master_key) slots
        (try_slots-append header' header.slots more credential master_key
          (sym (try_slots_by_id header header' header.slots credential id) ∙ h))

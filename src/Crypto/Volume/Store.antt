-- ===== src/Crypto/Volume/Store.antt =====
-- The header on disk, of src/crypto/volume.rs: read, written, and swapped together with the index.
use pqfs.Common.{
  ℕ, ◌+◌, Bytes, length, List, [], ◌∷◌, Result, ok, err, ok_or, bail_if, Bool, true, false, ltb,
  ◌==◌, not, ◌||◌, if◌then◌else◌, volume_exists, header_too_large, header_parse,
  header_version as version_error, incomplete_rekey,
}
use pqfs.Common
use pqfs.Common.Exec.{Exec, ◌>>=◌, ◌>>◌, pure, lift, gets}
use pqfs.Backend.{
  Backend, Extension, header_file, index_file, rekey_marker, header_staging, index_staging,
  with_extension, exists, read_file, create_file, write_all, write_synced, rename, remove_file,
}
use pqfs.Crypto.Primitives.{Primitives}
use pqfs.Crypto.Header.{
  KdfParams, VolumeHeader, header_version, max_header_bytes, volume_id_len, zero_mac,
}
use pqfs.Crypto.Keys.{
  HeaderCodec, Crypto, ascii, derive_header_mac_key, header_mac, verify_header_mac, random_key,
  from_master_key,
}
use pqfs.Crypto.Volume.Slots.{Unlock, open_master_key, password_slot}

-- A computation that only draws from the random generator.
abbrev pub with_draws : {A : Type 0} → Exec ℕ A → Exec Backend A
with_draws m b = let (r, n) = m b.draws in (r, record b { draws = n })

-- Finish a rekey that was interrupted after its commit point.
unfoldable pub recover : Exec Backend (Unit {0})
recover b =
    if not (exists rekey_marker b)
    then (ok tt, b)
    else if not (exists header_staging b) || not (exists index_staging b)
    then (err incomplete_rekey, b)
    else (do
      rename index_staging index_file
      rename header_staging header_file
      remove_file rekey_marker)
        b

module _ (p : Primitives) (codec : HeaderCodec) where
  unfoldable pub seal_header : VolumeHeader → Bytes → Result VolumeHeader
  unfolding derive_header_mac_key header_mac
  seal_header header master_key =
      let unsigned : VolumeHeader = record header { mac = zero_mac } in
      Common.◌>>=◌ (derive_header_mac_key p master_key)
        λ mac_key. ok (record unsigned { mac = header_mac p codec mac_key unsigned })

  -- `read_header` past the read of the file
  unfoldable pub parse_header : Bytes → Result VolumeHeader
  parse_header bytes =
      if ltb max_header_bytes (length bytes)
      then err header_too_large
      else Common.◌>>=◌ (ok_or (codec.deserialize bytes) header_parse)
          λ header. if not (header.version == header_version) then err version_error else ok header

  unfoldable pub read_header : Exec Backend VolumeHeader
  read_header = do recover; bytes ← λ b. (read_file header_file b, b); lift (parse_header bytes)

  -- `Crypto::save`
  unfoldable pub save : VolumeHeader → Exec Backend (Unit {0})
  save header = do create_file header_file; write_all header_file (codec.serialize header)

  unfoldable pub init_with_params : Bytes → KdfParams → Exec Backend Crypto
  unfolding save
  init_with_params word kdf = do
    existing ← gets (exists header_file)
    lift (bail_if existing volume_exists)
    master_key ← with_draws (random_key p)
    volume_id ← with_draws (λ n. (ok (p.fill_bytes n volume_id_len), n + 1))
    slot ← with_draws (password_slot p word volume_id master_key kdf)
    header ← lift (
        seal_header
          (record {
            version = header_version;
            volume_id = volume_id;
            slots = slot ∷ [];
            mac = zero_mac;
          })
          master_key)
    this ← lift (from_master_key p master_key header)
    save header
    pure this

  unfoldable pub unlock : Unlock → Exec Backend Crypto
  unlock credential = do
    header ← read_header
    master_key ← lift (open_master_key p header credential)
    mac_key ← lift (derive_header_mac_key p master_key)
    lift (verify_header_mac p codec mac_key header)
    lift (from_master_key p master_key header)

  -- The changes of `commit_rekey`: the staged pair is on disk before the marker, and the marker before
  -- the swap.
  unfoldable pub swap_in : VolumeHeader → Bytes → Exec Backend VolumeHeader
  unfolding recover
  swap_in sealed index = do
    write_synced index_staging index
    write_synced header_staging (codec.serialize sealed)
    write_synced rekey_marker (ascii "1")
    recover
    pure sealed

  unfoldable pub commit_rekey : VolumeHeader → Bytes → Bytes → Exec Backend VolumeHeader
  commit_rekey header master_key index = do
    sealed ← lift (seal_header header master_key)
    swap_in sealed index

  -- The changes of `write_header`: a temporary file is renamed over the header.
  unfoldable pub replace_header : VolumeHeader → Exec Backend VolumeHeader
  replace_header sealed = do
    let staged = with_extension header_file Extension.tmp
    create_file staged
    write_all staged (codec.serialize sealed)
    rename staged header_file
    pure sealed

  unfoldable pub write_header : VolumeHeader → Bytes → Exec Backend VolumeHeader
  write_header header master_key = do
    sealed ← lift (seal_header header master_key)
    replace_header sealed

-- ===== src/Tests/ToyCodec.antt =====
-- A codec that meets `IsFaithful`: every byte string is written behind its length.
use pqfs.Common.{ℕ, zero, suc, ◌≡◌, refl, ap, Bytes, length, take, drop, List, [], ◌∷◌, ◌++◌, some}
use pqfs.Crypto.Header.{KeySlot, VolumeHeader, default_kdf}
use pqfs.Crypto.Keys.{HeaderCodec, IsFaithful}
use pqfs.Crypto.Aead.RoundTrip.{take-append, drop-append}

unfoldable pub piece : Bytes → Bytes → Bytes
piece x rest = length x ∷ (x ++ rest)

unfoldable pub unpiece : Bytes → Bytes × Bytes
unpiece [] = ([], [])
unpiece (n ∷ r) = (take n r, drop n r)

unpiece-piece : (x rest : Bytes) → unpiece (piece x rest) ≡ (x, rest)
unfolding unpiece piece
unpiece-piece x rest = rw (take-append x rest (length x) refl, drop-append x rest (length x) refl)

unfoldable pub put_slot : KeySlot → Bytes → Bytes
put_slot (KeySlot.password salt kdf wrapped) rest =
    0 ∷ kdf.m_cost ∷ kdf.t_cost ∷ kdf.p_cost ∷ piece salt (piece wrapped rest)
put_slot (KeySlot.recipient label param key ct wrapped) rest =
    1 ∷ param ∷ piece label (piece key (piece ct (piece wrapped rest)))

unfoldable pub get_password : ℕ → ℕ → ℕ → Bytes → KeySlot × Bytes
get_password m t c r =
    let (salt, r) = unpiece r in
    let (wrapped, r) = unpiece r in
    (KeySlot.password salt (record { m_cost = m; t_cost = t; p_cost = c }) wrapped, r)

unfoldable pub get_recipient : ℕ → Bytes → KeySlot × Bytes
get_recipient param r =
    let (label, r) = unpiece r in
    let (key, r) = unpiece r in
    let (ct, r) = unpiece r in
    let (wrapped, r) = unpiece r in (KeySlot.recipient label param key ct wrapped, r)

unfoldable pub get_slot : Bytes → KeySlot × Bytes
unfolding get_password get_recipient
get_slot (zero ∷ m ∷ t ∷ c ∷ r) = get_password m t c r
get_slot (suc k ∷ param ∷ r) = get_recipient param r
get_slot r = (KeySlot.password [] default_kdf [], r)

get_slot-put_slot : (slot : KeySlot) (rest : Bytes) → get_slot (put_slot slot rest) ≡ (slot, rest)
unfolding get_slot put_slot
get_slot-put_slot (KeySlot.password salt kdf wrapped) rest = rw unpiece-piece (rw unpiece-piece)
get_slot-put_slot (KeySlot.recipient label param key ct wrapped) rest =
    rw unpiece-piece (rw unpiece-piece (rw unpiece-piece (rw unpiece-piece)))

unfoldable pub put_slots : List KeySlot → Bytes
put_slots [] = []
put_slots (slot ∷ slots) = put_slot slot (put_slots slots)

unfoldable pub get_slots : ℕ → Bytes → List KeySlot
get_slots zero r = []
get_slots (suc n) r = let (slot, r) = get_slot r in slot ∷ get_slots n r

get_slots-put_slots : (slots : List KeySlot) → get_slots (length slots) (put_slots slots) ≡ slots
unfolding get_slots put_slots
get_slots-put_slots [] = refl
get_slots-put_slots (slot ∷ slots) =
    rw (get_slot-put_slot slot (put_slots slots)) (ap (λ t. slot ∷ t) (get_slots-put_slots slots))

unfoldable pub put_header : VolumeHeader → Bytes
put_header h = h.version ∷ length h.slots ∷ piece h.volume_id (piece h.mac (put_slots h.slots))

unfoldable pub get_header : Bytes → VolumeHeader
get_header (version ∷ count ∷ r) =
    let (id, r) = unpiece r in
    let (mac, r) = unpiece r in
    record { version = version; volume_id = id; slots = get_slots count r; mac = mac }
get_header r = record { version = 0; volume_id = []; slots = []; mac = [] }

get_header-put_header : (h : VolumeHeader) → get_header (put_header h) ≡ h
unfolding get_header put_header
get_header-put_header h = rw unpiece-piece (
    rw unpiece-piece
      (ap (λ (s : List KeySlot). record h { slots = s }) (get_slots-put_slots h.slots)))

abbrev pub toy_codec : HeaderCodec
toy_codec = record { serialize = put_header; deserialize = λ r. some (get_header r) }

pub toy_codec-IsFaithful : IsFaithful toy_codec
toy_codec-IsFaithful = record {
  deserialize-serialize = λ h small. ap (λ x. some x) (get_header-put_header h);
}

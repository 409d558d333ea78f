-- ===== src/Ops/Steps.antt =====
-- The steps that the handlers share, and what holds after each: reads of the random generator and the disk
-- leave the index as it is, a name that was encrypted decrypts, and saving changes at most the flag.
use pqfs.Common.{
  ℕ, if◌then◌else◌, ◌<◌, ◌≡◌, ◌≢◌, refl, sym, ap, subst, ◌∙◌, Bytes, [], Bool, true, none, some,
  Result, ok, err, or_fail, ok_or, take, drop, decryption_failed, eio, arith, length, le→ltb,
}
use pqfs.Common.SortedMap
use pqfs.Common.Exec.{Exec}
use pqfs.Common.After.{After, After-ok, After-err, After-bind, After-weaken}
use pqfs.Backend.{Backend}
use pqfs.Crypto.Primitives.{Primitives, IsSound}
use pqfs.Crypto.Keys.{Crypto, same_bytes}
use pqfs.Crypto.Aead.{open_blob}
use pqfs.Crypto.Aead.RoundTrip.{open_blob-seal_blob}
use pqfs.Crypto.Volume.Store.{with_draws}
use pqfs.Index.Entry.{Entry}
use pqfs.Index.Children.{same_name}
use pqfs.Index.State.{Inner, root_ino, insert_entry}
use pqfs.Index.Tables.{child}
use pqfs.Index.Names.{
  FileAttr, attr_for, is_utf8, find_child, hash_filename, encrypt_filename, decrypt_filename,
}
use pqfs.Index.Persist.{IndexCodec, Mount, on_disk, save_index}
use pqfs.Index.WellFormed.{IsIndex, insert_entry-IsIndex}
use pqfs.Index.Namespace.{with_counters-IsIndex, find_child-insert}
use pqfs.Ops.Data.{as_eio}
use pqfs.Ops.Tree.{insert_saved}
use pqfs.Ops.Removal.{save_index-inner}

pub as_eio-After :
    {S A : Type 0} {Q : A → S → Type 0} {E : S → Type 0} (m : Exec S A) (s : S)
    → After Q E (m s)
    → After Q E (as_eio m s)
as_eio-After {S} {A} {Q} {E} m s h = go (m s) h
  where
    go : (r : Result A × S) → After Q E r → After Q E (or_fail eio r.0, r.1)
    go (ok a, t) h = h
    go (err e, t) h = After-err eio t (h.bad e t refl)

-- What only the state says.
pub state-After : {S A : Type 0} (P : S → Type 0) (r : Result A × S) → P r.1 → After (λ _. P) P r
state-After P (ok a, s) h = After-ok a s h
state-After P (err e, s) h = After-err e s h

-- The index is as it was.
abbrev pub IsKept : Mount → Mount → Type 0
IsKept m m' = m'.inner ≡ m.inner

-- The index is as it was but for the flag.
abbrev pub IsFlagged : Inner → Mount → Type 0
IsFlagged s m = (flag : Bool) × (m.inner ≡ record s { dirty = flag })

pub on_disk-After :
    {A : Type 0} (x : Exec Backend A) (m : Mount) → After (λ _. IsKept m) (IsKept m) (on_disk x m)
on_disk-After x m = state-After (IsKept m) (on_disk x m) refl

module _ (p : Primitives) (codec : IndexCodec) (crypto : Crypto) where
  pub save-After :
      (m : Mount)
      → After (λ _. IsFlagged m.inner) (IsFlagged m.inner) (as_eio (save_index p codec crypto) m)
  save-After m = as_eio-After (save_index p codec crypto) m (
      state-After (IsFlagged m.inner) (save_index p codec crypto m)
        (save_index-inner p codec crypto m))

  pub IsFlagged-IsIndex :
      (s : Inner) (m : Mount) → IsIndex p crypto s → IsFlagged s m → IsIndex p crypto m.inner
  IsFlagged-IsIndex s m index (flag, e) =
      subst (IsIndex p crypto) (sym e)
        (with_counters-IsIndex p crypto s flag s.next_ino index (omega arith))

  pub IsFlagged-find_child :
      (s : Inner) (m : Mount) (q : ℕ) (n : Bytes)
      → IsFlagged s m
      → find_child p crypto q n m.inner ≡ find_child p crypto q n s
  unfolding find_child
  IsFlagged-find_child s m q n (flag, e) = rw e

module _ (p : Primitives) (sound : IsSound p) (codec : IndexCodec) (crypto : Crypto) where
  pub decrypt_filename-encrypt :
      (name blob : Bytes) (draws draws' : ℕ)
      → is_utf8 name ≡ true
      → encrypt_filename p crypto name draws ≡ (ok blob, draws')
      → decrypt_filename p crypto blob ≡ ok name
  unfolding encrypt_filename decrypt_filename
  decrypt_filename-encrypt name blob draws draws' valid h =
      let (opens, size) =
        open_blob-seal_blob p sound crypto.filename_cipher [] name blob draws draws' h in
      let opened : ok_or (p.unseal crypto.filename_cipher (take 24 blob) [] (drop 24 blob))
            decryption_failed
          ≡ ok name =
        unfold open_blob in ground (arith, opens, le→ltb (length blob) 40 (omega arith)) in
      ground (arith, opened, valid, le→ltb (length blob) 40 (omega arith))

  pub encrypt_filename-After :
      (name : Bytes) (m : Mount)
      → is_utf8 name ≡ true
      → After
          (λ blob m'. IsKept m m' × (decrypt_filename p crypto blob ≡ ok name))
          (IsKept m)
          (as_eio (on_disk (with_draws (encrypt_filename p crypto name))) m)
  encrypt_filename-After name m valid =
      as_eio-After (on_disk (with_draws (encrypt_filename p crypto name))) m (record {
        good = λ blob m' e.
            let sealed = encrypt_filename p crypto name (m.backend).draws in
            (
              sym (ap (λ (r : Result Bytes × Mount). r.1.inner) e),
              decrypt_filename-encrypt name blob (m.backend).draws sealed.1 valid
                  (ap (λ (r : Result Bytes × Mount). (r.0, sealed.1)) e),
            );
        bad = λ x m' e. sym (ap (λ (r : Result Bytes × Mount). r.1.inner) e);
      })

-- What an insertion under a name gives: a well-formed index in which the name leads to an entry with the
-- attributes of the reply, and every name with another parent or hash leads where it led.
pub record IsAdded (p : Primitives) (crypto : Crypto) (s : Inner) (parent : ℕ) (name : Bytes)
    (attr : FileAttr) (s' : Inner) : Type 0 where
  pub index : IsIndex p crypto s'
  pub entry : Entry
  pub reply : attr ≡ attr_for entry
  pub found :
      (q : ℕ) (n : Bytes)
      → find_child p crypto q n s' ≡ (
          if same_name q (hash_filename p crypto n) parent (hash_filename p crypto name)
          then (if same_bytes name n then some entry else none)
          else find_child p crypto q n s)

module _ (p : Primitives) (codec : IndexCodec) (crypto : Crypto) where
  -- The end of `create`, `mkdir` and `symlink`: the entry has a new number and a free name.
  pub insert_saved-After :
      (e : Entry) (name : Bytes) (m : Mount)
      → IsIndex p crypto m.inner
      → e.ino ≢ root_ino
      → e.ino < (m.inner).next_ino
      → SortedMap.get e.ino (m.inner).entries ≡ none
      → child m.inner e.parent e.name_hash ≡ none
      → decrypt_filename p crypto e.name_encrypted ≡ ok name
      → e.name_hash ≡ hash_filename p crypto name
      → After
          (λ attr m'. IsAdded p crypto m.inner e.parent name attr m'.inner)
          (λ m'. IsIndex p crypto m'.inner)
          (insert_saved p codec crypto e m)
  unfolding insert_saved
  insert_saved-After e name m index not_root small new free readable hash =
      let s = insert_entry e m.inner in
      let index' =
        insert_entry-IsIndex p crypto m.inner e index not_root small (name, readable, sym hash) new
          free in
      let saved = record m { inner = s } in
      After-bind _ _
        (After-weaken (as_eio (save_index p codec crypto) saved) (λ _ m' f. f)
          (λ m' f. IsFlagged-IsIndex p codec crypto s m' index' f)
          (save-After p codec crypto saved))
        (λ _ m' f. After-ok (attr_for e) m' (record {
          index = IsFlagged-IsIndex p codec crypto s m' index' f;
          entry = e;
          reply = refl;
          found = λ q n.
              IsFlagged-find_child p codec crypto s m' q n f
              ∙ rw (← hash)
                  (find_child-insert p crypto m.inner index e not_root new name q n readable);
        }))

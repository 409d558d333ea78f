-- ===== src/Commands/Reindexed.antt =====
-- What `rekey_index` of src/fs/inner.rs makes of the index: the keys, names and link targets of the entries are
-- the same under the new keys, and nothing else changes.
use pqfs.Common.{
  ℕ, ◌≡◌, refl, sym, ap, ◌∙◌, subst, ◌⊎◌, Bytes, Bool, length, true, false, [], ◌∷◌, Option, none,
  some, Result, ok, err, if◌then◌else◌, ◌==◌, Bool-cases, inl, inr, arith,
}
use pqfs.Common.After.{ok-injective}
use pqfs.Common.Exec
use pqfs.Common.Exec.{Exec, and_then-eq-ok}
use pqfs.Common.SortedMap
use pqfs.Common.SortedMap.{SortedMap}
use pqfs.Backend.{Backend, index_file, exists}
use pqfs.Crypto.Primitives.{Primitives, IsSound}
use pqfs.Crypto.Keys.{Crypto}
use pqfs.Crypto.Aead.{encrypt, decrypt}
use pqfs.Crypto.Aead.RoundTrip.{open_blob-seal_blob}
use pqfs.Crypto.Volume.Store.{with_draws}
use pqfs.Index.Entry.{Entry}
use pqfs.Index.Names.{is_utf8, hash_filename, encrypt_filename, decrypt_filename}
use pqfs.Index.Persist.{
  IndexCodec, rekey_content_key, rekey_name, rekey_link_target, rekey_entry, rekey_entries,
  rekey_index,
}
use pqfs.Index.Saved.{read_entries-sealed}
use pqfs.Ops.Steps.{decrypt_filename-encrypt}

ran : (a b : Entry) (d d' : ℕ) → ◌≡◌ {A = Result Entry × ℕ} (ok a, d) (ok b, d') → a ≡ b
ran a b d d' h = ok-injective (ap (λ (r : Result Entry × ℕ). r.0) h)

-- The result of a computation on the count of draws.
drawn :
    {A : Type 0} (x : Exec ℕ A) (b : Backend) (a : A) (b' : Backend)
    → with_draws x b ≡ (ok a, b')
    → x b.draws ≡ (ok a, (x b.draws).1)
drawn {A} x b a b' h =
    ap (λ (r : Result A). (r, (x b.draws).1)) (ap (λ (r : Result A × Backend). r.0) h)

-- What the three parts of the loop's body share: a field that is empty stays, and another is opened, sealed
-- and put back.
part :
    (empty : Bool) (opened : Result Bytes) (seal : Bytes → Exec ℕ Bytes)
    (put : Bytes → Bytes → Entry) (e e' : Entry) (d d' : ℕ)
    → (if empty
          then Exec.pure e
          else Exec.◌>>=◌
              (Exec.lift opened)
              λ plain. Exec.◌>>=◌ (seal plain) λ blob. Exec.pure (put plain blob))
        d
      ≡ (ok e', d')
    → ((empty ≡ true) × (e ≡ e'))
      ⊎ ((plain : Bytes) × (blob : Bytes) × (s : ℕ) × (t : ℕ) × (opened ≡ ok plain)
          × (seal plain s ≡ (ok blob, t))
          × (put plain blob ≡ e'))
part true opened seal put e e' d d' h = inl (refl, ran e e' d d' h)
part false (ok plain) seal put e e' d d' h =
    let (blob, t, sealed, made) =
      and_then-eq-ok (seal plain d) (λ blob. Exec.pure (put plain blob)) e' d' h in
    inr (plain, blob, d, t, refl, sealed, ran (put plain blob) e' t d' made)
part false (err x) seal put e e' d d' h = absurd (ground (arith, h))

module _ (p : Primitives) (sound : IsSound p) (codec : IndexCodec) (old new : Crypto) where
  -- A key that was empty is empty, and another decrypts to what it did.
  abbrev pub IsKeyed : Bytes → Bytes → Type 0
  IsKeyed blob blob' =
      ((length blob ≡ 0) × (blob' ≡ blob))
      ⊎ ((key : Bytes) × (decrypt p old.cipher blob ≡ ok key)
          × (decrypt p new.cipher blob' ≡ ok key))

  -- So for a link target.
  abbrev pub IsTargeted : Bytes → Bytes → Type 0
  IsTargeted blob blob' =
      ((length blob ≡ 0) × (blob' ≡ blob))
      ⊎ ((name : Bytes) × (decrypt_filename p old blob ≡ ok name)
          × (decrypt_filename p new blob' ≡ ok name))

  -- So for a name, whose hash is that under the new key.
  abbrev pub IsNamed : Bytes → Bytes → Bytes → Bytes → Type 0
  IsNamed blob hash blob' hash' =
      ((length blob ≡ 0) × (blob' ≡ blob) × (hash' ≡ hash))
      ⊎ ((name : Bytes) × (decrypt_filename p old blob ≡ ok name)
          × (decrypt_filename p new blob' ≡ ok name)
          × (hash' ≡ hash_filename p new name))

  -- An entry under the new keys: the four fields, and nothing else, have changed.
  pub record IsRekeyed (e e' : Entry) : Type 0 where
    pub key : IsKeyed e.content_key e'.content_key
    pub name : IsNamed e.name_encrypted e.name_hash e'.name_encrypted e'.name_hash
    pub target : IsTargeted e.link_target e'.link_target
    pub rest : e' ≡ record e {
      content_key = e'.content_key;
      name_encrypted = e'.name_encrypted;
      name_hash = e'.name_hash;
      link_target = e'.link_target;
    }

  decrypt-encrypt :
      (cipher plain blob : Bytes) (d d' : ℕ)
      → encrypt p cipher plain d ≡ (ok blob, d')
      → decrypt p cipher blob ≡ ok plain
  unfolding encrypt decrypt
  decrypt-encrypt cipher plain blob d d' h =
      (open_blob-seal_blob p sound cipher [] plain blob d d' h).0

  -- A name that was decrypted is in UTF-8.
  decrypt_filename-utf8 :
      (c : Crypto) (blob name : Bytes) → decrypt_filename p c blob ≡ ok name → is_utf8 name ≡ true
  unfolding decrypt_filename
  decrypt_filename-utf8 c blob name h = elim (Bool-cases (is_utf8 name)) [
    | inl valid ↦ valid
    | inr bad ↦ absurd (ground (arith, h, bad))
  ]

  renamed_blob :
      (blob name blob' : Bytes) (d d' : ℕ)
      → decrypt_filename p old blob ≡ ok name
      → encrypt_filename p new name d ≡ (ok blob', d')
      → decrypt_filename p new blob' ≡ ok name
  renamed_blob blob name blob' d d' opens sealed =
      decrypt_filename-encrypt p sound codec new name blob' d d'
        (decrypt_filename-utf8 old blob name opens) sealed

  rekeyed_key :
      (e e' : Entry) (d d' : ℕ)
      → rekey_content_key p codec old new e d ≡ (ok e', d')
      → (blob : Bytes) × (record e { content_key = blob } ≡ e') × IsKeyed e.content_key blob
  unfolding rekey_content_key
  rekeyed_key e e' d d' h =
      elim (part (length e.content_key == 0) (decrypt p old.cipher e.content_key)
        (encrypt p new.cipher) (λ plain blob. record e { content_key = blob }) e e' d d' h) [
          | inl (empty, same) ↦ (e.content_key, same, inl (ground (arith, empty), refl))
          | inr (plain, blob, s, t, opened, sealed, made) ↦
              (blob, made, inr (plain, opened, decrypt-encrypt new.cipher plain blob s t sealed))
        ]

  rekeyed_name :
      (e e' : Entry) (d d' : ℕ)
      → rekey_name p codec old new e d ≡ (ok e', d')
      → (blob : Bytes) × (hash : Bytes) × (record e { name_encrypted = blob; name_hash = hash }
          ≡ e')
        × IsNamed e.name_encrypted e.name_hash blob hash
  unfolding rekey_name
  rekeyed_name e e' d d' h =
      elim (part (length e.name_encrypted == 0) (decrypt_filename p old e.name_encrypted)
        (encrypt_filename p new)
        (λ plain blob. record e { name_encrypted = blob; name_hash = hash_filename p new plain }) e
        e' d d' h) [
          | inl (empty, same) ↦
              (e.name_encrypted, e.name_hash, same, inl (ground (arith, empty), refl, refl))
          | inr (plain, blob, s, t, opened, sealed, made) ↦ (
            blob,
            hash_filename p new plain,
            made,
            inr (plain, opened, renamed_blob e.name_encrypted plain blob s t opened sealed, refl),
          )
        ]

  rekeyed_target :
      (e e' : Entry) (d d' : ℕ)
      → rekey_link_target p codec old new e d ≡ (ok e', d')
      → (blob : Bytes) × (record e { link_target = blob } ≡ e') × IsTargeted e.link_target blob
  unfolding rekey_link_target
  rekeyed_target e e' d d' h =
      elim (part (length e.link_target == 0) (decrypt_filename p old e.link_target)
        (encrypt_filename p new) (λ plain blob. record e { link_target = blob }) e e' d d' h) [
          | inl (empty, same) ↦ (e.link_target, same, inl (ground (arith, empty), refl))
          | inr (plain, blob, s, t, opened, sealed, made) ↦ (
            blob,
            made,
            inr (plain, opened, renamed_blob e.link_target plain blob s t opened sealed),
          )
        ]

  rekeyed :
      (e e' : Entry) (d d' : ℕ) → rekey_entry p codec old new e d ≡ (ok e', d') → IsRekeyed e e'
  unfolding rekey_entry
  rekeyed e e' d d' h =
      let (e₁, s, first, rest) = and_then-eq-ok (rekey_content_key p codec old new e d) _ e' d' h in
      let (e₂, t, second, third) = and_then-eq-ok (rekey_name p codec old new e₁ s) _ e' d' rest in
      let (key, made₁, keyed) = rekeyed_key e e₁ d s first in
      let (blob, hash, made₂, named) = rekeyed_name e₁ e₂ s t second in
      let (link, made₃, targeted) = rekeyed_target e₂ e' t d' third in
      let two : record (record e { content_key = key }) { name_encrypted = blob; name_hash = hash }
          ≡ e₂ =
        ap (λ (x : Entry). record x { name_encrypted = blob; name_hash = hash }) made₁ ∙ made₂ in
      let three = ap (λ (x : Entry). record x { link_target = link }) two ∙ made₃ in
      subst (IsRekeyed e) three (record {
        key = keyed;
        name =
            subst (λ (x : Entry). IsNamed x.name_encrypted x.name_hash blob hash) (sym made₁) named;
        target = subst (λ (x : Entry). IsTargeted x.link_target link) (sym two) targeted;
        rest = refl;
      })

  -- The entries before and after, inode by inode.
  abbrev pub Corresponds : Option Entry → Option Entry → Type 0
  Corresponds none o = o ≡ none
  Corresponds (some e) o = (e' : Entry) × (o ≡ some e') × IsRekeyed e e'

  entries_rekeyed :
      (es es' : SortedMap Entry) (d d' : ℕ)
      → rekey_entries p codec old new es d ≡ (ok es', d')
      → (i : ℕ) → Corresponds (SortedMap.get i es) (SortedMap.get i es')
  unfolding rekey_entries SortedMap.get
  entries_rekeyed [] es' d d' h i =
      let none_left : [] ≡ es' = ok-injective (ap (λ (r : Result (SortedMap Entry) × ℕ). r.0) h) in
      ap (λ (m : SortedMap Entry). SortedMap.get i m) (sym none_left)
  entries_rekeyed ((j, e) ∷ es) es' d d' h i =
      let (e', s, first, rest) = and_then-eq-ok (rekey_entry p codec old new e d) _ es' d' h in
      let (more, t, others, made) =
        and_then-eq-ok (rekey_entries p codec old new es s) _ es' d' rest in
      let whole : (j, e') ∷ more ≡ es' =
        ok-injective (ap (λ (r : Result (SortedMap Entry) × ℕ). r.0) made) in
      subst
        (λ (m : SortedMap Entry). Corresponds (SortedMap.get i ((j, e) ∷ es)) (SortedMap.get i m))
        whole
        (elim (Bool-cases (i == j)) [
          | inl same ↦ rw same (e', refl, rekeyed e e' d s first)
          | inr other ↦ rw other (entries_rekeyed es more s t others i)
        ])

  -- With a sound cipher, when `rekey_index` gives a result for an index file that opens to entries under the
  -- old keys: the result opens under the new keys to entries that the codec writes, one for each of the old
  -- ones and no more. Their content keys, names and link targets decrypt under the new keys to what they did
  -- under the old ones, an empty one stays empty, the hashes are those of the names under the new key, and
  -- nothing else of an entry changes.
  pub rekey_index-Corresponds :
      (b b' : Backend) (data_read plain blob : Bytes) (entries : SortedMap Entry)
      → b.files index_file ≡ some data_read
      → decrypt p old.cipher data_read ≡ ok plain
      → codec.deserialize plain ≡ some entries
      → rekey_index p codec old new b ≡ (ok blob, b')
      → (entries' : SortedMap Entry) × (decrypt p new.cipher blob ≡ ok (codec.serialize entries'))
        × ((i : ℕ) → Corresponds (SortedMap.get i entries) (SortedMap.get i entries'))
  unfolding rekey_index exists
  rekey_index-Corresponds b b' data_read plain blob entries file opens faithful h =
      let reads = read_entries-sealed p codec old b data_read plain entries file opens faithful in
      let run : rekey_index p codec old new b
          ≡ Exec.and_then (with_draws (rekey_entries p codec old new entries) b)
              (λ rekeyed. with_draws (encrypt p new.cipher (codec.serialize rekeyed))) =
        rw (file, exists) (rw reads refl) in
      let (entries', b₁, first, rest) =
        and_then-eq-ok (with_draws (rekey_entries p codec old new entries) b) _ blob b'
          (sym run ∙ h) in
      (
        entries',
        decrypt-encrypt new.cipher (codec.serialize entries') blob b₁.draws _
            (drawn (encrypt p new.cipher (codec.serialize entries')) b₁ blob b' rest),
        entries_rekeyed entries entries' b.draws _
            (drawn (rekey_entries p codec old new entries) b entries' b₁ first),
      )

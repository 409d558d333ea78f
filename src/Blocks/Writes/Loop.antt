-- ===== src/Blocks/Writes/Loop.antt =====
-- The loop of `write_range`: after each round the blocks up to it hold the new content.
use pqfs.Common.{
  ℕ, ◌+◌, ◌*◌, ◌≤◌, ◌<◌, ◌≡◌, refl, Bytes, length, arith, ok, splice, ltb, inl, inr, zero, suc,
  Bool-cases, ltb→lt, ltb→le, ◌==◌, [], slice-past, sym, subst,
}
use pqfs.Crypto.Primitives.{Primitives, IsSound}
use pqfs.Blocks.Layout.{block_plaintext, block_count, plaintext_len, record_offset}
use pqfs.Blocks.Ops.{Handle, read_block, write_block, old_block, write_blocks}
use pqfs.Blocks.Stored.{block, length-block}
use pqfs.Blocks.Writes.Patch.{patch_lem}
use pqfs.Blocks.Writes.Records.{records_apart, read_block-splice_ne, write_block_total}

module _ (p : Primitives) (sound : IsSound p) (key : Bytes) (key_ok : length key ≡ 32) where
  module _ (content : Bytes) (offset : ℕ) (input : Bytes) where
    abbrev pub written : Bytes
    written = splice content offset input

    -- Before block `at`: the earlier blocks hold the new content, the later ones the old.
    pub record Between (at : ℕ) (file : Bytes) : Type 0 where
      pub done :
          (i : ℕ)
          → i < at
          → i < block_count (length written)
          → read_block p key file (length written) i ≡ ok (block written i)
      pub todo :
          (i : ℕ)
          → at ≤ i
          → i < block_count (length content)
          → read_block p key file (length content) i ≡ ok (block content i)

    -- Past the old blocks the old plaintext is empty.
    old_block_lem :
        (h : Handle) (at : ℕ)
        → Between at h.bytes
        → old_block p key (length content) at h ≡ (ok (block content at), h)
    unfolding old_block
    old_block_lem h at b = elim (Bool-cases (ltb at (block_count (length content)))) [
      | inl old ↦ rw (old, b.todo at (omega arith) (ltb→lt _ _ old))
      | inr new ↦
          let past : length content ≤ at * 65536 =
            unfold block_count in omega (arith, ltb→le at (block_count (length content)) new) in
          let e : block content at ≡ [] =
            unfold block in slice-past content (at * 65536) (at * 65536 + 65536) past in
          rw (new, e)
    ]

    -- What one round leaves.
    pub record Round (at : ℕ) (h : Handle) : Type 0 where
      pub after : Handle
      pub runs : write_block p key at (block written at) h ≡ (ok tt, after)
      pub between : Between (at + 1) after.bytes

    length-block_le : (at : ℕ) → length (block written at) ≤ block_plaintext
    unfolding plaintext_len
    length-block_le at = ground (arith, length-block written at)

    round : (at : ℕ) (h : Handle) → Between at h.bytes → Round at h
    round at h b =
        let w = write_block_total p key sound key_ok h at (block written at) (length-block_le at) in
        record {
          after = record { bytes = splice h.bytes (record_offset at) w.blob; draws = h.draws + 1 };
          runs = w.runs;
          between = record {
            done = λ i hi hn. elim (Bool-cases (i == at)) [
              | inl same ↦
                  let e : at ≡ i = ground arith in
                  subst
                    (λ k.
                      read_block p key (splice h.bytes (record_offset at) w.blob) (length written) k
                      ≡ ok (block written k))
                    e (w.reads (length written) (sym (length-block written at)))
              | inr other ↦
                  let lt : i < at = ground arith in
                  read_block-splice_ne p key h.bytes (record_offset at) w.blob (length written) i
                    (block written i) (inl (records_apart (length written) i at lt))
                    (b.done i lt hn)
            ];
            todo = λ i hi ho.
                read_block-splice_ne p key h.bytes (record_offset at) w.blob (length content) i
                  (block content i)
                  (inr (unfold record_offset in omega (arith, w.width, length-block_le at)))
                  (b.todo i (omega arith) ho);
          };
        }

    -- What a run of rounds leaves.
    pub record Run (rounds at : ℕ) (h : Handle) : Type 0 where
      pub after : Handle
      pub runs :
          write_blocks p key (length content) (length written) offset input rounds at h
          ≡ (ok tt, after)
      pub between : Between (at + rounds) after.bytes

    pub write_blocks_total : (rounds at : ℕ) (h : Handle) → Between at h.bytes → Run rounds at h
    unfolding write_blocks
    write_blocks_total zero at h b = record {
      after = h;
      runs = refl;
      between = subst (λ k. Between k h.bytes) (omega arith) b;
    }
    write_blocks_total (suc rounds) at h b =
        let r = round at h b in
        let rest = write_blocks_total rounds (at + 1) r.after r.between in
        record {
          after = rest.after;
          runs =
              rw (old_block_lem h at b)
                (rw (patch_lem content offset input at) (rw r.runs rest.runs));
          between = subst (λ k. Between k rest.after.bytes) (omega arith) rest.between;
        }

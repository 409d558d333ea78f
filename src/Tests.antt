-- ===== src/Tests.antt =====
-- The theorems at concrete inputs: a cipher and a codec that meet the hypotheses, and small volumes,
-- data files and indexes.
mod Toy
mod ToyCodec
mod BlockRuns
mod VolumeRuns
mod IndexRuns
mod OpsRuns
mod NameRuns
mod TreeRuns
mod SlotRuns
mod RekeyRuns
mod WrapperRuns

-- ===== src/Termination.antt =====
-- Detection of the end of an epoch: no message is left anywhere.
pub mod SinhaKale
pub mod BlueGene
pub mod ThreadWrapper

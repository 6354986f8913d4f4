-- ===== src/Ethash.antt =====
-- libethash: Ethash's light cache, dataset items, hash, verification and search.
mod Tests
pub mod Hash
pub mod Cache
pub mod Dataset
pub mod Kernel
pub mod Epoch
pub mod Context

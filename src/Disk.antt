-- ===== src/Disk.antt =====
-- engine/disk: the tier that lives on a volume.
pub mod Links
pub mod Header
pub mod Index
pub mod Volume
pub mod Negatives
pub mod Store
pub mod Listing

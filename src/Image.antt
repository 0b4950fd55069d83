-- ===== src/Image.antt =====
-- Images and their digests (src/image).
pub mod Sha256

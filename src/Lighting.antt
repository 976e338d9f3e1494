-- ===== src/Lighting.antt =====
-- src/toje/lighting: the sky light and the block light of a chunk, spread over it and the chunks
-- around it.
pub mod Models
pub mod Diffuse
pub mod Initialize

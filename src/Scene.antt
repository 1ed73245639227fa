-- ===== src/Scene.antt =====
-- Scenes (src/scene): the files that workers fetch as bulk inputs.
pub mod Bvh

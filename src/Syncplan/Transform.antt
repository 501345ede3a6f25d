-- ===== src/Syncplan/Transform.antt =====
-- internal/syncplan/transform.go: the host object for a tenant object, and the way back. The
-- package builds new objects from old ones and hands none of them on twice, so objects are values
-- here, and `DeepCopy` is the object itself.
pub mod Labels
pub mod Strip
pub mod Adopt
pub mod Content
pub mod Build

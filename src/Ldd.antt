-- ===== src/Ldd.antt =====
-- List decision diagrams: src/SylvanWrapper.cpp.
pub mod Tree
pub mod Union
pub mod Minus
pub mod Intersect
pub mod Fire
pub mod Canonical
pub mod Index
pub mod Firable
pub mod Count
pub mod Divide
